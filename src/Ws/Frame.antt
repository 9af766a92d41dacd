-- ===== src/Ws/Frame.antt =====
-- webrtc-server/pkg/handler/handle_ws.go: what a step leaves alone.
pub mod Message
use webrtc_chat.Prelude.{
  ℕ, String, ◌≡◌, refl, ◌∙◌, Bool, true, false, Option, none, some, List, [], ◌∷◌, ◌++◌, arith,
  Outcome, done, panic, ◌>>=◌, ◌==◌, Bool-cases, Option-cases, inl, inr, if◌then◌else◌,
}
use mathlib.Core.Path.{subst}
use mathlib.Core.List.{append_assoc, append-nil}
use webrtc_chat.Map
use webrtc_chat.Map.{Range}
use webrtc_chat.Errors.{Error, wrapped}
use webrtc_chat.Payloads.{
  RegisterPayload, EchoPayload, SdpOfferPayload, IceOfferPayload, RenamePayload,
  AttributesAnnouncementPayload, MessagePayload,
}
use webrtc_chat.ConnReg
use webrtc_chat.ConnReg.{ConnRegistry, ConnRegistryData}
use webrtc_chat.ConnReg.Update.{
  Written, Written-frame, register-Written, update_heartbeat-Written, set_attributes-Written,
  update_preference-Written,
}
use webrtc_chat.Ws.{
  Sent, World, Call, no_message, pong, is_ping, Step, check, write_json, broadcast_to,
  send_broadcast_msg, forward_error, send_to_entry, send_msg_to, handle_register, handle_echo,
  handle_attributes, handle_rename, handle_sdp_offer, handle_ice_offer, and_then, handle_payload,
  handle_text_message, resolve_payload,
}

-- From `w` to `w'` only the entry of `key` may differ, and messages were only added.
pub record Framed (key : String) (w w' : World) : Type 0 where
  pub same_closed : w'.registry.datastore.closed ≡ w.registry.datastore.closed
  pub same_counter : w'.registry.counter ≡ w.registry.counter
  pub others :
      (j : String)
      → (key == j) ≡ false
      → Map.get w'.registry.datastore.store j ≡ Map.get w.registry.datastore.store j
  pub added : (l : Sent) × (w'.sent ≡ w.sent ++ l)

-- What a step does if it does not panic.
abbrev pub Ends : String → World → Outcome (World × Option Error) → Type 0
Ends key w (done (w', e)) = Framed key w w'
Ends key w (panic f) = Unit {0}

pub Framed-refl : (key : String) (w : World) → Framed key w w
Framed-refl key w = record {
  same_closed = refl;
  same_counter = refl;
  others = λ j h. refl;
  added = ([], simp append-nil);
}

pub Framed-trans : (key : String) (u v w : World) → Framed key u v → Framed key v w → Framed key u w
Framed-trans key u v w f g = record {
  same_closed = g.same_closed ∙ f.same_closed;
  same_counter = g.same_counter ∙ f.same_counter;
  others = λ j h. g.others j h ∙ f.others j h;
  added = let (l, e) = f.added in let (k, d) = g.added in (l ++ k, simp (d, e, append_assoc));
}

-- A message is added, or the registry is written by an update of the entry.
Framed-sent : (key : String) (w : World) (l : Sent) → Framed key w (record w { sent = w.sent ++ l })
Framed-sent key w l = record {
  same_closed = refl;
  same_counter = refl;
  others = λ j h. refl;
  added = (l, refl);
}

Framed-Written :
    (key : String) (w : World) (cr : ConnRegistry)
    → Written w.registry key cr
    → Framed key w (record w { registry = cr })
Framed-Written key w cr wr =
    let (c, n, o) = Written-frame w.registry key cr wr in
    record { same_closed = c; same_counter = n; others = o; added = ([], simp append-nil) }

Ends-after :
    (key : String) (u v : World) (m : Outcome (World × Option Error))
    → Framed key u v
    → Ends key v m
    → Ends key u m
Ends-after key u v (panic f) fr h = tt
Ends-after key u v (done (w, e)) fr h = Framed-trans key u v w fr h

module _ (key : String) where
  pub Ends-check :
      (w : World) (m : Outcome (World × Option Error)) (next : Step)
      → Ends key w m
      → ((w' : World) → Ends key w' (next w'))
      → Ends key w (check m next)
  unfolding check
  Ends-check w (panic f) next h k = tt
  Ends-check w (done (w', some e)) next h k = h
  Ends-check w (done (w', none)) next h k = Ends-after key w w' (next w') h (k w')

  pub Ends-and_then :
      (w : World) (m : Outcome (World × Option Error)) (next : Step)
      → Ends key w m
      → ((w' : World) → Ends key w' (next w'))
      → Ends key w (and_then m next)
  unfolding and_then
  Ends-and_then w (panic f) next h k = tt
  Ends-and_then w (done (w', some e)) next h k = h
  Ends-and_then w (done (w', none)) next h k = Ends-after key w w' (next w') h (k w')

  pub Ends-update :
      {S : Type 0} (w : World) (m : Outcome (ConnRegistry × S × Option Error))
      (k : ConnRegistry × S × Option Error → Outcome (World × Option Error))
      → ((cr : ConnRegistry) (s : S) (e : Option Error)
          → m ≡ done (cr, s, e)
          → Written w.registry key cr)
      → ((cr : ConnRegistry) (s : S) (e : Option Error)
          → Ends key (record w { registry = cr }) (k (cr, s, e)))
      → Ends key w (m >>= k)
  Ends-update w (panic f) k h g = tt
  Ends-update w (done (cr, s, e)) k h g =
      Ends-after key w (record w { registry = cr }) (k (cr, s, e))
        (Framed-Written key w cr (h cr s e refl)) (g cr s e)

  pub Ends-write_json :
      (call : Call) (ws : ℕ) (payload : MessagePayload) (w : World)
      → Ends key w (write_json call ws payload w)
  unfolding write_json
  Ends-write_json call ws payload w = elim (Bool-cases (call.broken w.sent ws)) [
    | inl e ↦ rw e (Framed-refl key w)
    | inr e ↦ rw e (Framed-sent key w ((ws, payload) ∷ []))
  ]

  Ends-broadcast_to :
      (call : Call) (payload : MessagePayload) (l : List (String × ConnRegistryData)) (w : World)
      → Ends key w (broadcast_to call payload l w)
  unfolding broadcast_to
  Ends-broadcast_to call payload [] w = Framed-refl key w
  Ends-broadcast_to call payload ((k, entry) ∷ l) w = elim (Option-cases entry.ws_conn) [
    | inl e ↦ rw e (Ends-broadcast_to call payload l w)
    | inr (ws, e) ↦ rw e (
        Ends-check w (write_json call ws payload w) (broadcast_to call payload l)
          (Ends-write_json call ws payload w) (Ends-broadcast_to call payload l))
  ]

  Ends-forward_error :
      (payload : MessagePayload) (w : World) (m : Outcome (World × Option Error))
      → Ends key w m
      → Ends key w (m >>= forward_error payload)
  unfolding forward_error
  Ends-forward_error payload w (panic f) h = tt
  Ends-forward_error payload w (done (w', none)) h = h
  Ends-forward_error payload w (done (w', some e)) h = elim (Option-cases payload.sdp_offer) [
    | inl e ↦ rw e tt
    | inr (o, e) ↦ rw e h
  ]

  Ends-send_to_entry :
      (call : Call) (payload : MessagePayload) (w : World) (entry : Option ConnRegistryData)
      → Ends key w (send_to_entry call payload w entry)
  unfolding send_to_entry
  Ends-send_to_entry call payload w none = Framed-refl key w
  Ends-send_to_entry call payload w (some entry) = elim (Option-cases entry.ws_conn) [
    | inl e ↦ rw e (Framed-refl key w)
    | inr (ws, e) ↦ rw e (
        Ends-forward_error payload w (write_json call ws payload w)
          (Ends-write_json call ws payload w))
  ]

  Ends-found :
      (call : Call) (payload : MessagePayload) (w : World)
      (m : Outcome (Option ConnRegistryData × Option Error))
      → Ends key w (
          m >>= λ r. elim r.1 [
            | some e ↦ done (w, some (wrapped e))
            | none ↦ send_to_entry call payload w r.0
          ])
  Ends-found call payload w (panic f) = tt
  Ends-found call payload w (done (found, some e)) = Framed-refl key w
  Ends-found call payload w (done (found, none)) = Ends-send_to_entry call payload w found

  pub Ends-send_msg_to :
      (call : Call) (node_id : String) (payload : MessagePayload) (w : World)
      → Ends key w (send_msg_to call node_id payload w)
  unfolding send_msg_to
  Ends-send_msg_to call node_id payload w =
      Ends-found call payload w (ConnReg.get_by_node_id call.entries w.registry node_id)

  pub Ends-send_broadcast_msg :
      (call : Call) (payload : MessagePayload) (w : World)
      → Ends key w (send_broadcast_msg call payload w)
  unfolding send_broadcast_msg
  Ends-send_broadcast_msg call payload w =
      Ends-broadcast_to call payload (call.entries.order (ConnReg.dump call.entries w.registry)) w
