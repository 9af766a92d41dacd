-- ===== src/Agent/MsgsStore/Linear.antt =====
-- webrtc-agents/pkg/msgs_store/msgs_store.go: an Append takes effect at once, at its CompareAndSwap.
use webrtc_chat.Prelude.{
  ℕ, zero, suc, ◌<◌, ◌≤◌, ◌≡◌, refl, sym, ◌⊎◌, true, false, Option, none, some, List, [], ◌∷◌,
  arith, inl, inr, Bool-cases, length,
}
use mathlib.Core.Path.{subst}
use webrtc_chat.Agent.MsgsStore.{
  MsgsCollection, MsgsStore, Memory, AppendError, max_retries_reached, allocate, same_ptr,
  compare_and_swap, updated_from, turn, append_loop, append_msg,
}

module _ {C : Type 0} where
  -- What other goroutines may do: publish stores that they have allocated since.
  abbrev pub PublishesNew : (Memory C → Memory C) → Type 0
  PublishesNew others =
      (m : Memory C)
      → (m.next ≤ (others m).next)
        × (((others m).ptr ≡ m.ptr)
            ⊎ ((t : MsgsStore C) × ((others m).ptr ≡ some t)
                × (m.next ≤ t.address)
                × (t.address < (others m).next)))

  abbrev pub AllPublishNew : List (Memory C → Memory C) → Type 0
  AllPublishNew [] = Unit {0}
  AllPublishNew (o ∷ l) = PublishesNew o × AllPublishNew l

  abbrev AllocatedPtr : Option (MsgsStore C) → ℕ → Type 0
  AllocatedPtr none next = Unit {0}
  AllocatedPtr (some s) next = s.address < next

  -- The published store is allocated.
  abbrev pub IsAllocated : Memory C → Type 0
  IsAllocated m = AllocatedPtr m.ptr m.next

  -- Others alone: what they have made of the memory after `k` turns of the loop.
  abbrev pub others_only : ℕ → List (Memory C → Memory C) → Memory C → Memory C
  others_only zero schedule mem = mem
  others_only (suc k) [] mem = others_only k [] (allocate mem)
  others_only (suc k) (others ∷ schedule) mem = others_only k schedule (others (allocate mem))

  AllocatedPtr-le :
      (p : Option (MsgsStore C)) (n n' : ℕ) → n ≤ n' → AllocatedPtr p n → AllocatedPtr p n'
  AllocatedPtr-le none n n' le a = tt
  AllocatedPtr-le (some s) n n' le a = omega (arith, le, a)

  IsAllocated-others :
      (others : Memory C → Memory C) (m : Memory C)
      → PublishesNew others
      → IsAllocated m
      → IsAllocated (others (allocate m))
  IsAllocated-others others m new alloc =
      let (le, published) = new (allocate m) in
      elim published [
        | inl same ↦
            subst (λ p. AllocatedPtr p (others (allocate m)).next) (sym same)
              (AllocatedPtr-le m.ptr m.next (others (allocate m)).next (omega (arith, le)) alloc)
        | inr (t, at, from, to) ↦ subst (λ p. AllocatedPtr p (others (allocate m)).next) (sym at) to
      ]

  fresh-differs :
      (p : Option (MsgsStore C)) (t : MsgsStore C) (n : ℕ)
      → AllocatedPtr p n
      → n ≤ t.address
      → same_ptr (some t) p ≡ false
  fresh-differs none t n a le = refl
  fresh-differs (some s) t n a le = ground (arith, a, le)

  -- If the pointer is as it was loaded, so is the store.
  same_ptr_sound :
      (others : Memory C → Memory C) (m : Memory C)
      → PublishesNew others
      → IsAllocated m
      → same_ptr (others (allocate m)).ptr m.ptr ≡ true
      → (others (allocate m)).ptr ≡ m.ptr
  same_ptr_sound others m new alloc same = elim (new (allocate m)).1 [
    | inl e ↦ e
    | inr (t, at, from, to) ↦
        let differs = fresh-differs m.ptr t m.next alloc (omega (arith, from)) in
        absurd (cc (same, differs, at))
  ]

  same_ptr_refl : (p : Option (MsgsStore C)) → same_ptr p p ≡ true
  same_ptr_refl none = refl
  same_ptr_refl (some s) = ground arith

module _ {C M : Type 0} (backend : MsgsCollection C M) (msg : M) where
  -- The memory with one message appended to what is published.
  abbrev pub appended : ℕ → Memory C → Memory C
  appended address m = record m { ptr = some (updated_from backend m.ptr msg address) }

  turn-swaps :
      (others : Memory C → Memory C) (m : Memory C)
      → PublishesNew others
      → IsAllocated m
      → same_ptr (others (allocate m)).ptr m.ptr ≡ true
      → turn backend msg others m ≡ (true, appended m.next (others (allocate m)))
  unfolding turn compare_and_swap
  turn-swaps others m new alloc same = rw (same, same_ptr_sound others m new alloc same) refl

  turn-fails :
      (others : Memory C → Memory C) (m : Memory C)
      → same_ptr (others (allocate m)).ptr m.ptr ≡ false
      → turn backend msg others m ≡ (false, others (allocate m))
  unfolding turn compare_and_swap
  turn-fails others m differs = rw differs refl

  abbrev pub Linear :
      ℕ → List (Memory C → Memory C) → Memory C → Memory C × Option AppendError → Type 0
  Linear n schedule m r =
      ((k address : ℕ) × (r ≡ (appended address (others_only (suc k) schedule m), none)))
      ⊎ ((r ≡ (others_only n schedule m, some max_retries_reached)) × (n ≤ length schedule))

  append_loop-Linear :
      (n : ℕ) (schedule : List (Memory C → Memory C)) (m : Memory C)
      → AllPublishNew schedule
      → IsAllocated m
      → Linear n schedule m (append_loop backend n msg schedule m)
  unfolding append_loop
  append_loop-Linear zero schedule m new alloc = inr (refl, omega arith)
  append_loop-Linear (suc n) [] m new alloc = inl (
    0,
    m.next,
    rw (turn-swaps (λ m. m) m (λ m. (omega arith, inl refl)) alloc (same_ptr_refl m.ptr)) refl,
  )
  append_loop-Linear (suc n) (others ∷ schedule) m (new, news) alloc =
      elim (Bool-cases (same_ptr (others (allocate m)).ptr m.ptr)) [
        | inl same ↦ inl (0, m.next, rw (turn-swaps others m new alloc same) refl)
        | inr differs ↦
            elim (append_loop-Linear n schedule (others (allocate m)) news
              (IsAllocated-others others m new alloc)) [
                | inl (k, address, e) ↦ inl (suc k, address, rw (turn-fails others m differs) e)
                | inr (e, le) ↦ inr (rw (turn-fails others m differs) e, omega (arith, le))
              ]
      ]

  -- Append takes effect once or not at all. Other goroutines only publish stores that they have
  -- allocated since. Either it returns nil, and the memory is what the others made of it, with the
  -- message appended to a copy of what they had published at that point; or it returns the error,
  -- the memory is what the others made of it, and they ran in each of the 10000 turns.
  pub append_msg-Linear :
      (schedule : List (Memory C → Memory C)) (m : Memory C)
      → AllPublishNew schedule
      → IsAllocated m
      → Linear 10000 schedule m (append_msg backend msg schedule m)
  unfolding append_msg
  append_msg-Linear schedule m new alloc = append_loop-Linear 10000 schedule m new alloc
