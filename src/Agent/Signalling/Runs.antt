-- ===== src/Agent/Signalling/Runs.antt =====
-- webrtc-agents/pkg/handlers/signalling_handler.go: what holds in every run of an agent.
use mathlib.Core.List.{Memᴰ}
use webrtc_chat.Prelude.{
  ℕ, String, ◌≡◌, refl, sym, ◌∙◌, ap, false, Option, some, List, [], ◌∷◌, ◌++◌, arith, inl, inr,
  Bool-cases, Option-cases, nat_eq, if◌then◌else◌, ◌==◌,
}
use webrtc_chat.Map
use webrtc_chat.Payloads.{MessagePayload, SdpOfferPayload, IceOfferPayload}
use webrtc_chat.Agent.Signalling.{
  Engine, PeerConnEntry, SignallingHandler, assign, stored, is_empty, initiate_ice_restart, accept,
  receive, handle_sdp_offer, create_peer_connection, take_candidate, handle_ice_offer,
  handle_message,
}
use webrtc_chat.Agent.Signalling.Changes.{
  PeerConnectionState, disconnected, failed, connected, closed, other, Event, message, change,
  restart, state_changed, handle_change, handle_event, run, new_signalling_handler,
}
use webrtc_chat.Agent.Signalling.Queue.{
  Ready, AllReady, Ready-Kept, AllReady-assign, initiate-Kept, accept-offers,
}
use webrtc_chat.Agent.Signalling.Restart.{restart-failed, restart-sent}

is_empty-append : {D : Type 0} (l : List D) (d : D) → is_empty (l ++ d ∷ []) ≡ false
is_empty-append [] d = refl
is_empty-append (x ∷ l) d = refl

module _ {P D C : Type 0} where
  -- Writing twice through one pointer.
  AllReady-assign_twice :
      (heap : ℕ → Option (PeerConnEntry P D C)) (r : ℕ) (first entry : PeerConnEntry P D C)
      → AllReady heap
      → Ready entry
      → AllReady
          (λ q. if nat_eq r q then some entry else (if nat_eq r q then some first else heap q))
  AllReady-assign_twice heap r first entry all ready q e h = elim (Bool-cases (nat_eq r q)) [
    | inl same ↦ AllReady-assign heap r entry all ready q e (rw same (rw same at h))
    | inr differ ↦ all q e (rw differ at h)
  ]

  stored-heap :
      (id : String) (h : SignallingHandler P D C) (r : ℕ) (entry : PeerConnEntry P D C)
      → stored id h ≡ some (r, entry)
      → h.heap r ≡ some entry
  stored-heap id h r entry e = elim (Option-cases (Map.get h.peers id)) [
    | inl p ↦ absurd (cc (e, p))
    | inr (q, p) ↦ ground arith
  ]

module _ {P D C : Type 0} (engine : Engine P D C) where
  -- The description of an offer parses.
  abbrev Parses : SdpOfferPayload → Type 0
  Parses o = (d : D) × (engine.parse_description o.offer_json ≡ some d)

  receive-AllReady :
      (o : SdpOfferPayload) (r : ℕ) (entry : PeerConnEntry P D C) (h : SignallingHandler P D C)
      → Parses o
      → entry.queued ≡ []
      → ((e : PeerConnEntry P D C) → Ready e → AllReady (assign r e h).heap)
      → AllReady (receive engine o r entry h).0.heap
  unfolding receive
  receive-AllReady o r entry h (d, p) empty all =
      let (offers, kept) = accept-offers engine h.node_id o d entry in
      rw (p, receive)
        (all (accept engine h.node_id o d entry).0
          (ap is_empty offers ∙ is_empty-append entry.remote_offers d, kept empty))

  handle_sdp_offer-AllReady :
      (o : SdpOfferPayload) (h : SignallingHandler P D C)
      → Parses o
      → AllReady h.heap
      → AllReady (handle_sdp_offer engine o h).0.heap
  unfolding handle_sdp_offer create_peer_connection
  handle_sdp_offer-AllReady o h parses all = elim (Option-cases (stored o.from_node_id h)) [
    | inr ((r, entry), e) ↦
        rw (e, handle_sdp_offer)
          (receive-AllReady o r entry h parses
            (all r entry (stored-heap o.from_node_id h r entry e)).1
            (λ x. AllReady-assign h.heap r x all))
    | inl e ↦ elim (Option-cases engine.new_peer_connection) [
      | inl n ↦ rw (e, n, handle_sdp_offer) all
      | inr (pc, n) ↦
          rw (e, n, handle_sdp_offer)
            (receive-AllReady o h.next
              (record { connection = pc; remote_offers = []; queued = []; attempts = 0 }) _ parses
              refl (λ x. AllReady-assign_twice h.heap h.next _ x all))
    ]
  ]

  handle_ice_offer-AllReady :
      (o : IceOfferPayload) (h : SignallingHandler P D C)
      → AllReady h.heap
      → AllReady (handle_ice_offer engine o h).heap
  unfolding handle_ice_offer take_candidate
  handle_ice_offer-AllReady o h all = elim (Option-cases (stored o.from_node_id h)) [
    | inl e ↦ rw (e, handle_ice_offer) all
    | inr ((r, entry), e) ↦ elim (Option-cases (engine.parse_candidate o.offer_json)) [
      | inl p ↦ rw (e, p, handle_ice_offer) all
      | inr (c, p) ↦
          let ready = all r entry (stored-heap o.from_node_id h r entry e) in
          rw (e, p, handle_ice_offer)
            (AllReady-assign h.heap r (take_candidate engine c entry) all
              (rw (ready.0, take_candidate) ready))
    ]
  ]

  handle_message-AllReady :
      (m : MessagePayload) (h : SignallingHandler P D C)
      → ((o : SdpOfferPayload) → m.sdp_offer ≡ some o → Parses o)
      → AllReady h.heap
      → AllReady (handle_message engine m h).0.heap
  unfolding handle_message
  handle_message-AllReady m h parses all = elim (Bool-cases (m.node_id == "")) [
    | inr e ↦ rw (e, handle_message) all
    | inl e ↦ elim (Option-cases m.sdp_offer) [
      | inr (o, s) ↦ rw (e, s, handle_message) (handle_sdp_offer-AllReady o h (parses o s) all)
      | inl s ↦ elim (Option-cases m.ice_offer) [
        | inr (o, i) ↦ rw (e, s, i, handle_message) (handle_ice_offer-AllReady o h all)
        | inl i ↦ rw (e, s, i, handle_message) all
      ]
    ]
  ]

  restart-AllReady :
      (r : ℕ) (id : String) (entry : PeerConnEntry P D C) (h : SignallingHandler P D C)
      → Ready entry
      → AllReady h.heap
      → AllReady (restart engine r id entry h).0.heap
  restart-AllReady r id entry h ready all =
      let after = (initiate_ice_restart engine h.node_id id entry).0 in
      let ready' = Ready-Kept entry after ready (initiate-Kept engine h.node_id id entry) in
      elim (Option-cases (initiate_ice_restart engine h.node_id id entry).1) [
        | inl e ↦ rw (restart-failed engine r id entry h e) (AllReady-assign h.heap r _ all ready')
        | inr (m, e) ↦
            rw (restart-sent engine r id entry h m e) (AllReady-assign h.heap r after all ready')
      ]

  state_changed-AllReady :
      (r : ℕ) (id : String) (s : PeerConnectionState) (entry : PeerConnEntry P D C)
      (h : SignallingHandler P D C)
      → Ready entry
      → AllReady h.heap
      → AllReady (state_changed engine r id s entry h).0.heap
  unfolding state_changed
  state_changed-AllReady r id disconnected entry h ready all =
      restart-AllReady r id entry h ready all
  state_changed-AllReady r id failed entry h ready all = restart-AllReady r id entry h ready all
  state_changed-AllReady r id connected entry h ready all =
      AllReady-assign h.heap r (record entry { attempts = 0 }) all ready
  state_changed-AllReady r id closed entry h ready all = all
  state_changed-AllReady r id other entry h ready all = all

  handle_event-AllReady :
      (e : Event) (h : SignallingHandler P D C)
      → ((m : MessagePayload) (o : SdpOfferPayload)
          → e ≡ message m
          → m.sdp_offer ≡ some o
          → Parses o)
      → AllReady h.heap
      → AllReady (handle_event engine e h).0.heap
  unfolding handle_event handle_change
  handle_event-AllReady (message m) h parses all =
      handle_message-AllReady m h (λ o offers. parses m o refl offers) all
  handle_event-AllReady (change r id s) h parses all = elim (Option-cases (h.heap r)) [
    | inl e ↦ rw (e, handle_change) all
    | inr (entry, e) ↦
        rw (e, handle_change) (state_changed-AllReady r id s entry h (all r entry e) all)
  ]

  run-AllReady :
      (events : List Event) (h : SignallingHandler P D C)
      → ((m : MessagePayload) (o : SdpOfferPayload)
          → Memᴰ (message m) events
          → m.sdp_offer ≡ some o
          → Parses o)
      → AllReady h.heap
      → AllReady (run engine events h).0.heap
  unfolding run
  run-AllReady [] h parses all = all
  run-AllReady (e ∷ events) h parses all =
      run-AllReady events (handle_event engine e h).0 (λ m o later. parses m o (Memᴰ.tail later))
        (handle_event-AllReady e h (λ m o is_e. parses m o (Memᴰ.head (sym is_e))) all)

  -- In a run of a new agent in which the description of each SDP offer among the messages parses,
  -- each entry has an offer and no queued candidate: the queue is never used.
  pub queue_unused :
      (events : List Event) (r : ℕ) (entry : PeerConnEntry P D C)
      → ((m : MessagePayload) (o : SdpOfferPayload)
          → Memᴰ (message m) events
          → m.sdp_offer ≡ some o
          → (d : D) × (engine.parse_description o.offer_json ≡ some d))
      → (run engine events new_signalling_handler).0.heap r ≡ some entry
      → (is_empty entry.remote_offers ≡ false) × (entry.queued ≡ [])
  queue_unused events r entry parses =
      run-AllReady events new_signalling_handler parses (λ r entry e. cc) r entry
