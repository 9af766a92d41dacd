-- ===== src/Agent/Bots/Counters.antt =====
-- webrtc-agents/pkg/handlers/counter_dc_handler.go: the counters of the counter bot.
use webrtc_chat.Prelude.{
  ℕ, ◌+◌, ◌⊎◌, String, ◌≡◌, refl, ◌∙◌, ap, Option, none, some, List, [], ◌∷◌, inl, inr,
}
use webrtc_chat.Map
use webrtc_chat.Map.{get-put}
use webrtc_chat.User.Store.{nat_eq_refl}
use webrtc_chat.SyncMap.{
  load_or_store, compare_and_swap, load_or_store-stored, compare_and_swap-cases,
}
use webrtc_chat.Agent.Bots.{Counters, increase_turn, increase_counter}

-- An increment of the value that a map holds.
abbrev pub Incremented : String → Option ℕ × Counters → Type 0
Incremented key r =
    (at_swap : Counters) × (v : ℕ) × (Map.get at_swap key ≡ some v)
    × (r ≡ (some (v + 1), Map.put at_swap key (v + 1)))

increase_turn-cases :
    (others : Counters → Counters) (key : String) (counters : Counters)
    → Incremented key (increase_turn others key counters)
      ⊎ (increase_turn others key counters ≡ (none, others (load_or_store counters key 0).1))
unfolding increase_turn
increase_turn-cases others key counters =
    let (n, loaded) = load_or_store counters key 0 in
    elim (compare_and_swap-cases (others loaded) key n (n + 1)) [
      | inl (swapped, held) ↦ inl (others loaded, n, held, rw (swapped, increase_turn) refl)
      | inr failed ↦ inr (rw (failed, increase_turn) refl)
    ]

-- A turn that nothing disturbs swaps.
undisturbed_turn :
    (key : String) (counters : Counters)
    → increase_turn (λ c. c) key counters ≡ (
      some ((load_or_store counters key 0).0 + 1),
      Map.put (load_or_store counters key 0).1 key ((load_or_store counters key 0).0 + 1),
    )
unfolding increase_turn compare_and_swap
undisturbed_turn key counters =
    rw
      (
        load_or_store-stored key 0 counters,
        nat_eq_refl (load_or_store counters key 0).0,
        increase_turn,
        compare_and_swap,
      )
      refl

continue : List (Counters → Counters) → String → Option ℕ × Counters → Option ℕ × Counters
continue schedule key (some n, c) = (some n, c)
continue schedule key (none, c) = increase_counter schedule key c

continue-elim :
    (schedule : List (Counters → Counters)) (key : String) (r : Option ℕ × Counters)
    → elim r.0 [ some n ↦ (some n, r.1) | none ↦ increase_counter schedule key r.1 ]
      ≡ continue schedule key r
unfolding continue
continue-elim schedule key (some n, c) = refl
continue-elim schedule key (none, c) = refl

next_turn :
    (others : Counters → Counters) (schedule : List (Counters → Counters)) (key : String)
    (counters : Counters) (r : Option ℕ × Counters)
    → increase_turn others key counters ≡ r
    → increase_counter (others ∷ schedule) key counters ≡ continue schedule key r
unfolding increase_counter
next_turn others schedule key counters r e =
    continue-elim schedule key (increase_turn others key counters) ∙ ap (continue schedule key) e

-- Whatever other goroutines do between the turns of the loop, increaseCounter ends, and it is one
-- increment of the value that the map holds at the swap: it stores one more, changes nothing else,
-- and returns what it stored.
pub increase_counter-Incremented :
    (schedule : List (Counters → Counters)) (key : String) (counters : Counters)
    → Incremented key (increase_counter schedule key counters)
unfolding increase_counter continue
increase_counter-Incremented [] key counters = (
  (load_or_store counters key 0).1,
  (load_or_store counters key 0).0,
  load_or_store-stored key 0 counters,
  undisturbed_turn key counters,
)
increase_counter-Incremented (others ∷ schedule) key counters =
    elim (increase_turn-cases others key counters) [
      | inl (c, v, held, e) ↦ (c, v, held, next_turn others schedule key counters _ e)
      | inr e ↦
          let (c, v, held, d) =
            increase_counter-Incremented schedule key (others (load_or_store counters key 0).1) in
          (c, v, held, next_turn others schedule key counters _ e ∙ d)
    ]
