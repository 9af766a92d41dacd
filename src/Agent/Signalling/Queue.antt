-- ===== src/Agent/Signalling/Queue.antt =====
-- webrtc-agents/pkg/handlers/signalling_handler.go: the queue of ICE candidates of an entry.
use webrtc_chat.Prelude.{
  ℕ, String, ◌≡◌, refl, ◌∙◌, ap, false, Option, some, [], ◌∷◌, ◌++◌, arith, inl, inr, Bool-cases,
  Option-cases, nat_eq, if◌then◌else◌,
}
use webrtc_chat.Payloads.{offer, answer, OfferType, SdpOfferPayload}
use webrtc_chat.Agent.Sdp.{contains_ice_restart_option}
use webrtc_chat.Agent.Signalling.{
  Engine, PeerConnEntry, is_empty, is_offer, next_ice_restart_attempt, initiate_ice_restart,
  send_local, clear_on_restart, create_and_send, flush, answer_offer, accept,
}

module _ {P D C : Type 0} where
  -- An entry that keeps the offers and the candidates of another.
  abbrev pub Kept : PeerConnEntry P D C → PeerConnEntry P D C → Type 0
  Kept a b = (b.remote_offers ≡ a.remote_offers) × (b.queued ≡ a.queued)

  -- An entry with an offer and without a queued candidate.
  abbrev pub Ready : PeerConnEntry P D C → Type 0
  Ready entry = (is_empty entry.remote_offers ≡ false) × (entry.queued ≡ [])

  abbrev pub AllReady : (ℕ → Option (PeerConnEntry P D C)) → Type 0
  AllReady heap = (r : ℕ) (entry : PeerConnEntry P D C) → heap r ≡ some entry → Ready entry

  pub Ready-Kept : (a b : PeerConnEntry P D C) → Ready a → Kept a b → Ready b
  Ready-Kept a b ready kept = (ap is_empty kept.0 ∙ ready.0, kept.1 ∙ ready.1)

  pub AllReady-assign :
      (heap : ℕ → Option (PeerConnEntry P D C)) (r : ℕ) (entry : PeerConnEntry P D C)
      → AllReady heap
      → Ready entry
      → AllReady (λ q. if nat_eq r q then some entry else heap q)
  AllReady-assign heap r entry all ready q e h = elim (Bool-cases (nat_eq r q)) [
    | inl same ↦ let eq : entry ≡ e = ground arith in rw eq at ready
    | inr differ ↦ all q e (rw differ at h)
  ]

module _ {P D C : Type 0} (engine : Engine P D C) where
  send_local-Kept :
      (kind : OfferType) (a b : String) (d : D) (entry : PeerConnEntry P D C)
      → Kept entry (send_local engine kind a b d entry).0
  unfolding send_local
  send_local-Kept kind a b d entry =
      elim (Bool-cases (engine.set_local_description entry.connection d).1) [
        | inr e ↦ rw e (refl, refl)
        | inl e ↦ elim (Option-cases (engine.print_description d)) [
          | inl p ↦ rw (e, p) (refl, refl)
          | inr (json, p) ↦ rw (e, p) (refl, refl)
        ]
      ]

  pub initiate-Kept :
      (a b : String) (entry : PeerConnEntry P D C)
      → Kept entry (initiate_ice_restart engine a b entry).0
  unfolding initiate_ice_restart next_ice_restart_attempt
  initiate-Kept a b entry = elim (Bool-cases (next_ice_restart_attempt entry).2) [
    | inr e ↦ rw e (refl, refl)
    | inl e ↦ elim (Option-cases (engine.create_restart_offer entry.connection).1) [
      | inl p ↦ rw (e, p) (refl, refl)
      | inr (d, p) ↦ rw (e, p) (send_local-Kept offer a b d _)
    ]
  ]

  -- What keeps the offers and does not fill an empty queue.
  abbrev Softly : PeerConnEntry P D C → PeerConnEntry P D C → Type 0
  Softly a b = (b.remote_offers ≡ a.remote_offers) × (a.queued ≡ [] → b.queued ≡ [])

  clear-Softly :
      (d : D) (entry : PeerConnEntry P D C) → Softly entry (clear_on_restart engine d entry)
  unfolding clear_on_restart
  clear-Softly d entry = elim (Bool-cases (contains_ice_restart_option (engine.sdp d))) [
    | inl e ↦ rw e (refl, λ h. refl)
    | inr e ↦ rw e (refl, λ h. h)
  ]

  create_and_send-Kept :
      (a b : String) (entry : PeerConnEntry P D C) → Kept entry (create_and_send engine a b entry).0
  unfolding create_and_send
  create_and_send-Kept a b entry = elim (Option-cases (engine.create_answer entry.connection).1) [
    | inl p ↦ rw (p, create_and_send) (refl, refl)
    | inr (d, p) ↦ rw (p, create_and_send) (send_local-Kept answer a b d _)
  ]

  answer_offer-Softly :
      (a b : String) (d : D) (entry : PeerConnEntry P D C)
      → Softly entry (answer_offer engine a b d entry).0
  unfolding answer_offer
  answer_offer-Softly a b d entry =
      let cleared = clear_on_restart engine d entry in
      let (offers, empty) = clear-Softly d entry in
      let (offers', queued') = create_and_send-Kept a b cleared in
      (offers' ∙ offers, λ h. queued' ∙ empty h)

  -- A description that is accepted is among the offers, and an empty queue stays empty.
  pub accept-offers :
      (node_id : String) (o : SdpOfferPayload) (d : D) (entry : PeerConnEntry P D C)
      → ((accept engine node_id o d entry).0.remote_offers ≡ entry.remote_offers ++ d ∷ [])
        × (entry.queued ≡ [] → (accept engine node_id o d entry).0.queued ≡ [])
  unfolding accept flush
  accept-offers node_id o d entry =
      elim (Bool-cases (engine.set_remote_description entry.connection d).1) [
        | inr e ↦ rw e (refl, λ h. h)
        | inl e ↦ elim (Bool-cases (is_offer o.offer_type)) [
          | inr f ↦ rw (e, f) (refl, λ h. refl)
          | inl f ↦
              let entry' : PeerConnEntry P D C = record entry {
                remote_offers = entry.remote_offers ++ d ∷ [];
                connection = (engine.set_remote_description entry.connection d).0;
              } in
              let (offers, empty) = answer_offer-Softly node_id o.from_node_id d entry' in
              elim (Option-cases (answer_offer engine node_id o.from_node_id d entry').1) [
                | inl g ↦ rw (e, f, g) (offers, empty)
                | inr (m, g) ↦ rw (e, f, g) (offers, λ h. refl)
              ]
        ]
      ]
