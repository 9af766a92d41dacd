-- ===== src/Ws/Broadcast.antt =====
-- webrtc-server/pkg/handler/handle_ws.go: what sendBroadcastMsg writes.
use webrtc_chat.Prelude.{
  ℕ, String, ◌≡◌, refl, ◌∙◌, ap, false, none, some, List, [], ◌∷◌, ◌++◌, arith, done, inl, inr,
  Option-cases, eq_iff,
}
use mathlib.Core.List.{map, append_assoc, append-nil}
use webrtc_chat.Map
use webrtc_chat.Map.Assoc.{lookup, Distinct}
use webrtc_chat.Payloads.{MessagePayload}
use webrtc_chat.ConnReg
use webrtc_chat.ConnReg.{ConnRegistryData}
use webrtc_chat.ConnReg.Search.{get-dump_conn}
use webrtc_chat.Ws.{Sent, World, Call, write_json, check, broadcast_to, send_broadcast_msg}
use webrtc_chat.Ws.Forward.{writer, writer_of, writer-cloned}

-- The keys and the WebSockets of the entries that have one.
abbrev writers : List (String × ConnRegistryData) → List (String × ℕ)
writers [] = []
writers ((key, entry) ∷ l) = elim entry.ws_conn [
  | none ↦ writers l
  | some ws ↦ (key, ws) ∷ writers l
]

-- One message to each.
abbrev pub copies : MessagePayload → List (String × ℕ) → Sent
copies payload = map λ s. (s.1, payload)

lookup-writers :
    (l : List (String × ConnRegistryData)) (k : String)
    → Distinct l
    → lookup k (writers l) ≡ writer (lookup k l)
unfolding lookup
lookup-writers [] k d = refl
lookup-writers ((j, entry) ∷ l) k d = ground (arith, lookup-writers l k d.1, eq_iff j k, d.0)

writers-Distinct : (l : List (String × ConnRegistryData)) → Distinct l → Distinct (writers l)
writers-Distinct [] d = d
writers-Distinct ((j, entry) ∷ l) d = elim (Option-cases entry.ws_conn) [
  | inl e ↦ rw e (writers-Distinct l d.1)
  | inr (ws, e) ↦ rw e (lookup-writers l j d.1 ∙ ap writer d.0, writers-Distinct l d.1)
]

module _ (call : Call) (payload : MessagePayload)
    (works : (s : Sent) (ws : ℕ) → call.broken s ws ≡ false) where
  broadcast_to_lem :
      (l : List (String × ConnRegistryData)) (w : World)
      → broadcast_to call payload l w
        ≡ done (record w { sent = w.sent ++ copies payload (writers l) }, none)
  unfolding broadcast_to write_json check
  broadcast_to_lem [] w = simp append-nil
  broadcast_to_lem ((j, entry) ∷ l) w = elim (Option-cases entry.ws_conn) [
    | inl e ↦ rw e (broadcast_to_lem l w)
    | inr (ws, e) ↦
        rw (e, works w.sent ws)
          (broadcast_to_lem l (record w { sent = w.sent ++ (ws, payload) ∷ [] })
            ∙ simp append_assoc)
  ]

  -- If no write fails and the registry is open, a broadcast returns no error, leaves the registry
  -- and writes the message exactly once to the WebSocket of each connection that has registered.
  pub send_broadcast_msg_lem :
      (w : World)
      → w.registry.datastore.closed ≡ false
      → (sends : List (String × ℕ)) × Distinct sends
        × ((k : String) → lookup k sends ≡ writer_of w.registry k)
        × (send_broadcast_msg call payload w
            ≡ done (record w { sent = w.sent ++ copies payload sends }, none))
  unfolding send_broadcast_msg
  send_broadcast_msg_lem w is_open =
      let dumped = ConnReg.dump call.entries w.registry in
      let l = call.entries.order dumped in
      (
        writers l,
        writers-Distinct l (call.entries.distinct dumped),
        λ k.
            lookup-writers l k (call.entries.distinct dumped)
            ∙ ap writer
                (call.entries.visits dumped k ∙ get-dump_conn call.entries w.registry k is_open)
            ∙ writer-cloned (Map.get w.registry.datastore.store k),
        broadcast_to_lem l w,
      )
