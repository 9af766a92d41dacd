-- ===== src/Agent/Signalling/Restart.antt =====
-- webrtc-agents/pkg/handlers: how often a connection is restarted.
use webrtc_chat.Prelude.{
  ℕ, suc, ◌+◌, ◌-◌, ◌≤◌, String, ◌≡◌, refl, ◌∙◌, ap, ◌⊎◌, true, none, some, List, [], ◌∷◌, ◌++◌,
  arith, inl, inr, Bool-cases, Option-cases, length, length-append, leb,
}
use webrtc_chat.Map
use webrtc_chat.Map.{Map, get-put, get-remove}
use webrtc_chat.Payloads.{offer, OfferType, MessagePayload}
use webrtc_chat.User.Store.{nat_eq_refl}
use webrtc_chat.Agent.Signalling.{
  Engine, PeerConnEntry, SignallingHandler, Sends, assign, next_ice_restart_attempt,
  initiate_ice_restart, send_local,
}
use webrtc_chat.Agent.Signalling.Changes.{
  PeerConnectionState, disconnected, failed, connected, closed, other, Event, change, restart,
  state_changed, handle_change, handle_event, run,
}

-- Failures and closings of one connection, and no `connected` between them.
abbrev pub Unconnected : List PeerConnectionState → Type 0
Unconnected [] = Unit {0}
Unconnected (connected ∷ l) = ⊥
Unconnected (_ ∷ l) = Unconnected l

abbrev pub changes : ℕ → String → List PeerConnectionState → List Event
changes r id [] = []
changes r id (s ∷ l) = change r id s ∷ changes r id l

module _ {P D C : Type 0} (engine : Engine P D C) where
  send_local-attempts :
      (kind : OfferType) (a b : String) (d : D) (entry : PeerConnEntry P D C)
      → (send_local engine kind a b d entry).0.attempts ≡ entry.attempts
  unfolding send_local
  send_local-attempts kind a b d entry =
      elim (Bool-cases (engine.set_local_description entry.connection d).1) [
        | inr e ↦ rw e refl
        | inl e ↦ elim (Option-cases (engine.print_description d)) [
          | inl p ↦ rw (e, p) refl
          | inr (json, p) ↦ rw (e, p) refl
        ]
      ]

  pub initiate-attempts :
      (a b : String) (entry : PeerConnEntry P D C)
      → ((initiate_ice_restart engine a b entry).0.attempts ≡ suc entry.attempts)
        × ((leb (entry.attempts + 1) 3 ≡ true) ⊎ ((initiate_ice_restart engine a b entry).1 ≡ none))
  unfolding initiate_ice_restart next_ice_restart_attempt
  initiate-attempts a b entry = elim (Bool-cases (leb (entry.attempts + 1) 3)) [
    | inr e ↦ (rw e (omega arith), inr (rw e refl))
    | inl e ↦ (
      elim (Option-cases (engine.create_restart_offer entry.connection).1) [
        | inl p ↦ rw (e, p) (omega arith)
        | inr (d, p) ↦ rw (e, p) (send_local-attempts offer a b d _ ∙ omega arith)
      ],
      inl e,
    )
  ]

  abbrev pub given_up :
      ℕ → String → PeerConnEntry P D C → SignallingHandler P D C → SignallingHandler P D C
  given_up r id entry h =
      assign r (record entry { connection = engine.close entry.connection })
        (record h { peers = Map.remove h.peers id })

  pub restart-failed :
      (r : ℕ) (id : String) (entry : PeerConnEntry P D C) (h : SignallingHandler P D C)
      → (initiate_ice_restart engine h.node_id id entry).1 ≡ none
      → restart engine r id entry h
        ≡ (given_up r id (initiate_ice_restart engine h.node_id id entry).0 h, [])
  unfolding restart
  restart-failed r id entry h e = rw (e, restart) refl

  pub restart-sent :
      (r : ℕ) (id : String) (entry : PeerConnEntry P D C) (h : SignallingHandler P D C)
      (m : MessagePayload)
      → (initiate_ice_restart engine h.node_id id entry).1 ≡ some m
      → restart engine r id entry h
        ≡ (assign r (initiate_ice_restart engine h.node_id id entry).0 h, m ∷ [])
  unfolding restart
  restart-sent r id entry h m e = rw (e, restart) refl

  -- A failure counts one more attempt, and what it sends is paid for by the attempts left.
  restart-step :
      (r : ℕ) (id : String) (entry : PeerConnEntry P D C) (h : SignallingHandler P D C)
      → (entry' : PeerConnEntry P D C) × ((restart engine r id entry h).0.heap r ≡ some entry')
        × (entry'.attempts ≡ suc entry.attempts)
        × (length (restart engine r id entry h).1 + (3 - suc entry.attempts) ≤ 3 - entry.attempts)
  restart-step r id entry h =
      let (counted, paid) = initiate-attempts h.node_id id entry in
      let after : PeerConnEntry P D C = (initiate_ice_restart engine h.node_id id entry).0 in
      elim (Option-cases (initiate_ice_restart engine h.node_id id entry).1) [
        | inl e ↦ rw (restart-failed r id entry h e) (
          record after { connection = engine.close after.connection },
          rw (nat_eq_refl r) refl,
          counted,
          omega arith,
        )
        | inr (m, e) ↦
            rw (restart-sent r id entry h m e)
              (after, rw (nat_eq_refl r) refl, counted, ground (arith, paid))
      ]

  pub handle_change-stored :
      (r : ℕ) (id : String) (s : PeerConnectionState) (h : SignallingHandler P D C)
      (entry : PeerConnEntry P D C)
      → h.heap r ≡ some entry
      → handle_change engine r id s h ≡ state_changed engine r id s entry h
  unfolding handle_change
  handle_change-stored r id s h entry at = rw (at, handle_change) refl

  abbrev sent_by : ℕ → String → List PeerConnectionState → SignallingHandler P D C → ℕ
  sent_by r id l h = length (run engine (changes r id l) h).1

  sent_by-cons :
      (r : ℕ) (id : String) (s : PeerConnectionState) (l : List PeerConnectionState)
      (h : SignallingHandler P D C) (entry : PeerConnEntry P D C)
      → h.heap r ≡ some entry
      → let (h', sent) = state_changed engine r id s entry h in
        sent_by r id (s ∷ l) h ≡ length sent + sent_by r id l h'
  unfolding run handle_event
  sent_by-cons r id s l h entry at =
      let (h', sent) = state_changed engine r id s entry h in
      ap
        (λ (x : SignallingHandler P D C × Sends).
          length (x.1 ++ (run engine (changes r id l) x.0).1))
        (handle_change-stored r id s h entry at)
      ∙ length-append sent (run engine (changes r id l) h').1

  -- Until a connection is connected again, its failures send at most as many restart offers as it
  -- has attempts left of the three.
  pub restarts_bounded :
      (r : ℕ) (id : String) (l : List PeerConnectionState) (h : SignallingHandler P D C)
      (entry : PeerConnEntry P D C)
      → h.heap r ≡ some entry
      → Unconnected l
      → length (run engine (changes r id l) h).1 ≤ 3 - entry.attempts
  unfolding run state_changed
  restarts_bounded r id [] h entry at u = omega arith
  restarts_bounded r id (disconnected ∷ l) h entry at u =
      let (entry', at', counted, paid) = restart-step r id entry h in
      omega (
        arith,
        sent_by-cons r id disconnected l h entry at,
        restarts_bounded r id l (restart engine r id entry h).0 entry' at' u,
        counted,
        paid,
      )
  restarts_bounded r id (failed ∷ l) h entry at u =
      let (entry', at', counted, paid) = restart-step r id entry h in
      omega (
        arith,
        sent_by-cons r id failed l h entry at,
        restarts_bounded r id l (restart engine r id entry h).0 entry' at' u,
        counted,
        paid,
      )
  restarts_bounded r id (connected ∷ l) h entry at u = absurd u
  restarts_bounded r id (closed ∷ l) h entry at u = omega (
    arith,
    sent_by-cons r id closed l h entry at,
    restarts_bounded r id l (state_changed engine r id closed entry h).0 entry at u,
  )
  restarts_bounded r id (other ∷ l) h entry at u =
      omega (arith, sent_by-cons r id other l h entry at, restarts_bounded r id l h entry at u)
