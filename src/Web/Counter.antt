-- ===== src/Web/Counter.antt =====
-- webrtc-server/pkg/handler/handle_counter.go: how often a session has asked. Between the LoadOrStore
-- and the CompareAndSwap of a turn other requests may run: a schedule lists what they do in the first
-- turns, and one more turn runs undisturbed.
use webrtc_chat.Prelude.{
  ℕ, ◌+◌, String, Bool, true, false, ◌≡◌, refl, Option, none, some, List, [], ◌∷◌, inl, inr,
  Option-cases,
}
use webrtc_chat.Map
use webrtc_chat.Map.{Map}
use webrtc_chat.SyncMap.{
  load_or_store, compare_and_swap, load_or_store-stored, compare_and_swap-cases,
  compare_and_swap-refused,
}
use webrtc_chat.User.Store.{nat_eq_refl}

-- CounterHandlerResponse
pub record CounterResponse : Type 0 where
  pub err : String
  pub session_id : String
  pub count : ℕ

-- The value of the session id in the context.
pub data SessionValue : Type 0 where
  missing not_text : SessionValue
  text : String → SessionValue

-- One turn of the loop: whether it swapped, currentVal, and the map.
unfoldable pub cnt_turn : (Map ℕ → Map ℕ) → String → ℕ → Map ℕ → Bool × ℕ × Map ℕ
unfolding load_or_store compare_and_swap
cnt_turn others key current counters =
    let (n, loaded) = load_or_store counters key current in
    let (swapped, after) = compare_and_swap (others loaded) key n (n + 1) in (swapped, n, after)

-- The break, or the next turn.
unfoldable pub break_or : (ℕ → Map ℕ → Option ℕ × Map ℕ) → Bool × ℕ × Map ℕ → Option ℕ × Map ℕ
break_or next (true, n, after) = (some n, after)
break_or next (false, n, after) = next n after

unfoldable pub increase_cnt : List (Map ℕ → Map ℕ) → String → ℕ → Map ℕ → Option ℕ × Map ℕ
unfolding cnt_turn break_or
increase_cnt [] key current counters =
    break_or (λ n c. (none, c)) (cnt_turn (λ c. c) key current counters)
increase_cnt (others ∷ schedule) key current counters =
    break_or (increase_cnt schedule key) (cnt_turn others key current counters)

-- The answer, `none` while the loop runs, and the map.
unfoldable pub serve_counter :
    List (Map ℕ → Map ℕ) → SessionValue → Map ℕ → Option CounterResponse × Map ℕ
unfolding increase_cnt
serve_counter schedule missing counters =
    (some (record { err = "No session identifier found"; session_id = ""; count = 0 }), counters)
serve_counter schedule not_text counters = (
  some (record { err = "No valid session identifier found"; session_id = ""; count = 0 }),
  counters,
)
serve_counter schedule (text session_id) counters =
    let (n, after) = increase_cnt schedule session_id 0 counters in
    (
      elim n [
        | none ↦ none
        | some count ↦ some (record { err = ""; session_id = session_id; count = count })
      ],
      after,
    )

-- What LoadOrStore makes of a map: the value of the key stays, or is the given one.
pub data Loaded (key : String) (current : ℕ) (counters : Map ℕ) : ℕ → Map ℕ → Type 0 where
  present : {n : ℕ} → Map.get counters key ≡ some n → Loaded key current counters n counters
  absent :
      Map.get counters key ≡ none
      → Loaded key current counters current (Map.put counters key current)

-- The map and the value that a schedule brings the swap to, from a current value and a map. In each
-- turn the value is loaded; it is swapped there if the others of the turn leave it, or no turn of the
-- schedule is left; else the loop goes round with it on the map that the others leave.
pub data SwapsAt (key : String) : List (Map ℕ → Map ℕ) → ℕ → Map ℕ → Map ℕ → ℕ → Type 0 where
  alone :
      {current n : ℕ} {counters loaded : Map ℕ}
      → Loaded key current counters n loaded
      → SwapsAt key [] current counters loaded n
  kept :
      {others : Map ℕ → Map ℕ} {schedule : List (Map ℕ → Map ℕ)} {current n : ℕ}
      {counters loaded : Map ℕ}
      → Loaded key current counters n loaded
      → Map.get (others loaded) key ≡ some n
      → SwapsAt key (others ∷ schedule) current counters (others loaded) n
  again :
      {others : Map ℕ → Map ℕ} {schedule : List (Map ℕ → Map ℕ)} {current n v : ℕ}
      {counters loaded at_swap : Map ℕ}
      → Loaded key current counters n loaded
      → ¬ (Map.get (others loaded) key ≡ some n)
      → SwapsAt key schedule n (others loaded) at_swap v
      → SwapsAt key (others ∷ schedule) current counters at_swap v

load_or_store-Loaded :
    (key : String) (current : ℕ) (counters : Map ℕ)
    → let (n, loaded) = load_or_store counters key current in Loaded key current counters n loaded
unfolding load_or_store
load_or_store-Loaded key current counters = elim (Option-cases (Map.get counters key)) [
  | inr (n, e) ↦ rw (e, load_or_store) (present e)
  | inl e ↦ rw (e, load_or_store) (absent e)
]

-- The value that is held at the swap is handed out, and one more stored.
abbrev Taken : List (Map ℕ → Map ℕ) → String → ℕ → Map ℕ → Option ℕ × Map ℕ → Type 0
Taken schedule key current counters r =
    (at_swap : Map ℕ) × (v : ℕ) × SwapsAt key schedule current counters at_swap v
    × (Map.get at_swap key ≡ some v)
    × (r ≡ (some v, Map.put at_swap key (v + 1)))

increase_cnt-Taken :
    (schedule : List (Map ℕ → Map ℕ)) (key : String) (current : ℕ) (counters : Map ℕ)
    → Taken schedule key current counters (increase_cnt schedule key current counters)
unfolding increase_cnt cnt_turn break_or compare_and_swap
increase_cnt-Taken [] key current counters =
    let (n, loaded) = load_or_store counters key current in
    let held = load_or_store-stored key current counters in
    (
      loaded,
      n,
      alone (load_or_store-Loaded key current counters),
      held,
      rw (held, nat_eq_refl n, increase_cnt, cnt_turn, compare_and_swap) refl,
    )
increase_cnt-Taken (others ∷ schedule) key current counters =
    let (n, loaded) = load_or_store counters key current in
    let loads = load_or_store-Loaded key current counters in
    elim (compare_and_swap-cases (others loaded) key n (n + 1)) [
      | inl (swapped, held) ↦
          (others loaded, n, kept loads held, held, rw (swapped, increase_cnt, cnt_turn) refl)
      | inr failed ↦
          let (c, v, swaps, held, ran) = increase_cnt-Taken schedule key n (others loaded) in
          (
            c,
            v,
            again loads (compare_and_swap-refused (others loaded) key n (n + 1) failed) swaps,
            held,
            rw (failed, increase_cnt, cnt_turn) ran,
          )
    ]

-- Whatever other requests do between the turns, a request with a session id is answered, with the
-- value that the map holds for the session at the swap, where it becomes one more and nothing else
-- changes. The map and the value at the swap are those that the turns make of the map at the start:
-- each loads the value, or stores 0 in the first one if there is none, and swaps it if the other
-- requests of the turn leave it; else the next turn starts on the map that they leave.
pub serve_counter_lem :
    (schedule : List (Map ℕ → Map ℕ)) (session_id : String) (counters : Map ℕ)
    → (at_swap : Map ℕ) × (v : ℕ) × SwapsAt session_id schedule 0 counters at_swap v
      × (Map.get at_swap session_id ≡ some v)
      × (serve_counter schedule (text session_id) counters ≡ (
        some (record { err = ""; session_id = session_id; count = v }),
        Map.put at_swap session_id (v + 1),
      ))
unfolding serve_counter
serve_counter_lem schedule session_id counters =
    let (c, v, swaps, held, ran) = increase_cnt-Taken schedule session_id 0 counters in
    (c, v, swaps, held, rw (ran, serve_counter) refl)
