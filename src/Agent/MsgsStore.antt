-- ===== src/Agent/MsgsStore.antt =====
-- webrtc-agents/pkg/msgs_store/msgs_store.go: a store of messages behind an atomic pointer. The
-- collection is an interface of the source, here a parameter. `address` is the identity of a store,
-- which CompareAndSwap compares, and `next` the next free address; the resource version is a fresh
-- id that nothing reads, and is left out. Between the Load and the CompareAndSwap of a turn other
-- goroutines may run: a schedule lists what they do to the memory during the first turns, and the
-- turns after them are undisturbed.
pub mod Linear
pub mod History
use webrtc_chat.Prelude.{
  ℕ, zero, suc, Bool, true, false, Option, none, some, List, [], ◌∷◌, nat_eq, if◌then◌else◌,
}

-- MsgsCollection, with the factory that makes an empty one.
pub record MsgsCollection (C M : Type 0) : Type 0 where
  pub empty : C
  pub deep_clone : C → C
  pub append : C → M → C

pub record MsgsStore (C : Type 0) : Type 0 where
  pub address : ℕ
  pub collection : C

-- The pointer of SyncMsgsStore.
pub record Memory (C : Type 0) : Type 0 where
  pub ptr : Option (MsgsStore C)
  pub next : ℕ

-- What Append returns: nil, or "max retries reached, CAS lock timeout".
pub data AppendError : Type 0 where
  max_retries_reached : AppendError

module _ {C : Type 0} where
  -- The memory after a store has been allocated.
  abbrev pub allocate : Memory C → Memory C
  allocate mem = record mem { next = suc mem.next }

  -- old == new, of pointers.
  abbrev pub same_ptr : Option (MsgsStore C) → Option (MsgsStore C) → Bool
  same_ptr none none = true
  same_ptr none (some t) = false
  same_ptr (some s) none = false
  same_ptr (some s) (some t) = nat_eq s.address t.address

  -- ptr.CompareAndSwap(old, updated)
  unfoldable pub compare_and_swap : Option (MsgsStore C) → MsgsStore C → Memory C → Bool × Memory C
  compare_and_swap old updated mem =
      if same_ptr mem.ptr old then (true, record mem { ptr = some updated }) else (false, mem)

module _ {C M : Type 0} (backend : MsgsCollection C M) where
  -- NewMsgsStore over the factory's collection, or DeepClone; then Append.
  unfoldable pub updated_from : Option (MsgsStore C) → M → ℕ → MsgsStore C
  updated_from none msg address = record {
    address = address;
    collection = backend.append backend.empty msg;
  }
  updated_from (some old) msg address = record {
    address = address;
    collection = backend.append (backend.deep_clone old.collection) msg;
  }

  -- One turn of the loop: whether it swapped.
  unfoldable pub turn : M → (Memory C → Memory C) → Memory C → Bool × Memory C
  unfolding updated_from compare_and_swap
  turn msg others mem =
      compare_and_swap mem.ptr (updated_from mem.ptr msg mem.next) (others (allocate mem))

  -- The loop, with the retries that are left.
  unfoldable pub append_loop :
      ℕ → M → List (Memory C → Memory C) → Memory C → Memory C × Option AppendError
  unfolding turn
  append_loop zero msg schedule mem = (mem, some max_retries_reached)
  append_loop (suc retries) msg [] mem =
      let (swapped, mem') = turn msg (λ m. m) mem in
      let rest = append_loop retries msg [] mem' in if swapped then (mem', none) else rest
  append_loop (suc retries) msg (others ∷ schedule) mem =
      let (swapped, mem') = turn msg others mem in
      let rest = append_loop retries msg schedule mem' in if swapped then (mem', none) else rest

  -- SyncMsgsStore.Append
  unfoldable pub append_msg :
      M → List (Memory C → Memory C) → Memory C → Memory C × Option AppendError
  append_msg msg schedule mem = append_loop 10000 msg schedule mem
