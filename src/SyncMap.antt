-- ===== src/SyncMap.antt =====
-- A sync.Map from texts to numbers, as webrtc-server/pkg/handler/handle_counter.go and
-- webrtc-agents/pkg/handlers/counter_dc_handler.go use it.
use webrtc_chat.Prelude.{
  ℕ, ◌⊎◌, String, Bool, ◌≡◌, refl, ◌∙◌, true, false, none, some, arith, inl, inr, Bool-cases,
  Option-cases, eq_refl, nat_eq, if◌then◌else◌,
}
use webrtc_chat.Map
use webrtc_chat.Map.{Map, get-put}

-- LoadOrStore(key, value): the value that is there after it, and the map.
unfoldable pub load_or_store : Map ℕ → String → ℕ → ℕ × Map ℕ
load_or_store counters key value = elim (Map.get counters key) [
  | some n ↦ (n, counters)
  | none ↦ (value, Map.put counters key value)
]

-- CompareAndSwap(key, old, new)
unfoldable pub compare_and_swap : Map ℕ → String → ℕ → ℕ → Bool × Map ℕ
compare_and_swap counters key old new = elim (Map.get counters key) [
  | none ↦ (false, counters)
  | some n ↦ if nat_eq n old then (true, Map.put counters key new) else (false, counters)
]

pub load_or_store-stored :
    (key : String) (value : ℕ) (counters : Map ℕ)
    → Map.get (load_or_store counters key value).1 key ≡ some (load_or_store counters key value).0
unfolding load_or_store
load_or_store-stored key value counters = elim (Option-cases (Map.get counters key)) [
  | inr (n, e) ↦ rw (e, load_or_store) e
  | inl e ↦ rw (e, load_or_store) (get-put counters key key value ∙ rw (eq_refl key) refl)
]

pub compare_and_swap-cases :
    (c : Map ℕ) (key : String) (old new : ℕ)
    → ((compare_and_swap c key old new ≡ (true, Map.put c key new)) × (Map.get c key ≡ some old))
      ⊎ (compare_and_swap c key old new ≡ (false, c))
unfolding compare_and_swap
compare_and_swap-cases c key old new = elim (Option-cases (Map.get c key)) [
  | inl e ↦ inr (rw (e, compare_and_swap) refl)
  | inr (n, e) ↦ elim (Bool-cases (nat_eq n old)) [
    | inl same ↦ inl (rw (e, same, compare_and_swap) refl, ground arith)
    | inr differ ↦ inr (rw (e, differ, compare_and_swap) refl)
  ]
]

pub compare_and_swap-refused :
    (c : Map ℕ) (key : String) (old new : ℕ)
    → compare_and_swap c key old new ≡ (false, c)
    → ¬ (Map.get c key ≡ some old)
unfolding compare_and_swap
compare_and_swap-refused c key old new refused held =
    let same : nat_eq old old ≡ true = ground arith in
    let swapped : compare_and_swap c key old new ≡ (true, Map.put c key new) =
      rw (held, same, compare_and_swap) refl in
    absurd (cc (swapped, refused))
