-- ===== src/Agent/Signalling/Reconnect.antt =====
-- webrtc-agents/pkg/handlers/signalling_handler.go: a node that connects again while its old
-- connection is being closed. The callback of the old connection removes the entry by node id.
use webrtc_chat.Prelude.{
  ℕ, suc, String, ◌≡◌, refl, ◌∙◌, ap, false, none, some, List, [], ◌∷◌, arith, inl, inr, nat_eq,
  eq_refl,
}
use webrtc_chat.Map
use webrtc_chat.Map.{get-remove}
use webrtc_chat.Payloads.{MessagePayload, SdpOfferPayload}
use webrtc_chat.User.Store.{nat_eq_refl}
use webrtc_chat.Ws.{no_message}
use webrtc_chat.Agent.Signalling.{
  Engine, PeerConnEntry, SignallingHandler, Sends, assign, initiate_ice_restart, accept, receive,
  handle_sdp_offer, create_peer_connection, handle_message,
}
use webrtc_chat.Agent.Signalling.Changes.{
  failed, closed, Event, message, change, state_changed, handle_event, run,
}
use webrtc_chat.Agent.Signalling.Queue.{accept-offers}
use webrtc_chat.Agent.Signalling.Restart.{
  given_up, restart-failed, initiate-attempts, handle_change-stored,
}

abbrev pub offer_message : SdpOfferPayload → MessagePayload
offer_message o = record no_message { sdp_offer = some o }

module _ {P D C : Type 0} (engine : Engine P D C) where
  run-cons :
      (e : Event) (events : List Event) (h h' : SignallingHandler P D C) (sent : Sends)
      → handle_event engine e h ≡ (h', sent)
      → (run engine (e ∷ events) h).0 ≡ (run engine events h').0
  unfolding run
  run-cons e events h h' sent ran =
      ap (λ (x : SignallingHandler P D C × Sends). (run engine events x.0).0) ran

  exhausted :
      (a b : String) (entry : PeerConnEntry P D C)
      → entry.attempts ≡ 3
      → (initiate_ice_restart engine a b entry).1 ≡ none
  exhausted a b entry three = elim (initiate-attempts engine a b entry).1 [
    | inr e ↦ e
    | inl e ↦ absurd (ground (arith, e, three))
  ]

  last_failure :
      (r : ℕ) (id : String) (entry : PeerConnEntry P D C) (h : SignallingHandler P D C)
      → h.heap r ≡ some entry
      → entry.attempts ≡ 3
      → handle_event engine (change r id failed) h
        ≡ (given_up engine r id (initiate_ice_restart engine h.node_id id entry).0 h, [])
  unfolding handle_event state_changed
  last_failure r id entry h at three =
      handle_change-stored engine r id failed h entry at
      ∙ restart-failed engine r id entry h (exhausted h.node_id id entry three)

  abbrev with_fresh : SdpOfferPayload → P → SignallingHandler P D C → SignallingHandler P D C
  with_fresh o pc h =
      assign h.next (record { connection = pc; remote_offers = []; queued = []; attempts = 0 })
        (record h { peers = Map.put h.peers o.from_node_id h.next; next = suc h.next })

  -- An offer of a node without an entry makes one, which holds the offer.
  first_offer :
      (o : SdpOfferPayload) (d : D) (pc : P) (h : SignallingHandler P D C)
      → Map.get h.peers o.from_node_id ≡ none
      → engine.parse_description o.offer_json ≡ some d
      → engine.new_peer_connection ≡ some pc
      → (fresh : PeerConnEntry P D C) × (sent : Sends) × (fresh.remote_offers ≡ d ∷ [])
        × (handle_event engine (message (offer_message o)) h
            ≡ (assign h.next fresh (with_fresh o pc h), sent))
  unfolding handle_event handle_message handle_sdp_offer create_peer_connection receive
  first_offer o d pc h missing parsed made =
      let new : PeerConnEntry P D C = record {
        connection = pc;
        remote_offers = [];
        queued = [];
        attempts = 0;
      } in
      let result = accept engine h.node_id o d new in
      (
        result.0,
        result.1,
        (accept-offers engine h.node_id o d new).0,
        rw (missing, made, parsed, handle_sdp_offer, receive) refl,
      )

  late_close :
      (r : ℕ) (id : String) (h : SignallingHandler P D C) (entry : PeerConnEntry P D C)
      → h.heap r ≡ some entry
      → handle_event engine (change r id closed) h
        ≡ (record h { peers = Map.remove h.peers id }, [])
  unfolding handle_event state_changed
  late_close r id h entry at = handle_change-stored engine r id closed h entry at

  -- A connection whose three attempts are used up fails; the node sends a new offer, which parses
  -- and gets a new entry; then the close of the old connection is reported. After that the store
  -- has no entry for the node, although the new one exists and holds the offer.
  pub old_close_drops_new_entry :
      (r : ℕ) (entry : PeerConnEntry P D C) (h : SignallingHandler P D C) (o : SdpOfferPayload)
      (d : D) (pc : P)
      → h.heap r ≡ some entry
      → entry.attempts ≡ 3
      → nat_eq h.next r ≡ false
      → engine.parse_description o.offer_json ≡ some d
      → engine.new_peer_connection ≡ some pc
      → let h' =
          (run engine
            (change r o.from_node_id failed
              ∷ message (offer_message o)
              ∷ change r o.from_node_id closed
              ∷ [])
            h).0 in
        (fresh : PeerConnEntry P D C) × (h'.heap h.next ≡ some fresh)
        × (fresh.remote_offers ≡ d ∷ [])
        × (Map.get h'.peers o.from_node_id ≡ none)
  unfolding run
  old_close_drops_new_entry r entry h o d pc at three fresh_pointer parsed made =
      let id = o.from_node_id in
      let after : PeerConnEntry P D C = (initiate_ice_restart engine h.node_id id entry).0 in
      let given : PeerConnEntry P D C = record after {
        connection = engine.close after.connection;
      } in
      let h₁ = given_up engine r id (initiate_ice_restart engine h.node_id id entry).0 h in
      let gone : Map.get h₁.peers id ≡ none = get-remove h.peers id id ∙ rw (eq_refl id) refl in
      let (fresh, sent, offers, ran) = first_offer o d pc h₁ gone parsed made in
      let h₂ = assign h.next fresh (with_fresh o pc h₁) in
      let at₂ : h₂.heap r ≡ h₁.heap r = rw fresh_pointer refl in
      let h₃ : SignallingHandler P D C = record h₂ { peers = Map.remove h₂.peers id } in
      let last : List Event = change r id closed ∷ [] in
      let same : (run engine
            (change r id failed ∷ message (offer_message o) ∷ change r id closed ∷ []) h).0
          ≡ h₃ =
        run-cons (change r id failed) (message (offer_message o) ∷ last) h h₁ []
          (last_failure r id entry h at three)
        ∙ run-cons (message (offer_message o)) last h₁ h₂ sent ran
        ∙ run-cons (change r id closed) [] h₂ h₃ []
            (late_close r id h₂ given (at₂ ∙ rw (nat_eq_refl r) refl)) in
      (
        fresh,
        ap (λ (x : SignallingHandler P D C). x.heap h.next) same ∙ rw (nat_eq_refl h.next) refl,
        offers,
        ap (λ (x : SignallingHandler P D C). Map.get x.peers id) same
            ∙ get-remove h₂.peers id id
            ∙ rw (eq_refl id) refl,
      )
