-- ===== src/SafeMap.antt =====
-- webrtc-server/pkg/safemap: a map that one actor goroutine owns. Each function here is the
-- request that a method sends to the actor (`req` in methods.go): the actor runs requests one at a
-- time, so a request is a function of the state. A stored value is a pointer in the source, and a
-- callback may change what it points to: `op` returns the pointee as it leaves it. Sending and
-- closing are in SafeMap/Actor. `S` holds the variables that a callback captures and assigns.
pub mod Laws
pub mod Actor
pub mod Closing
use webrtc_chat.Prelude.{
  ℕ, String, Bool, true, false, Option, none, some, List, [], ◌∷◌, Outcome, done, panic, ◌>>=◌,
  if◌then◌else◌,
}
use webrtc_chat.Map
use webrtc_chat.Map.{Map, Range}
use webrtc_chat.Errors.{Error, map_closed}

pub record SafeMap (V : Type 0) : Type 0 where
  pub store : Map V
  pub closed : Bool

module _ {V : Type 0} where
  -- make(map[string]interface{})
  unfoldable pub new : SafeMap V
  new = record { store = Map.empty; closed = false }

  unfoldable pub set : SafeMap V → String → V → SafeMap V
  set sm key value = if sm.closed then sm else record sm { store = Map.put sm.store key value }

  unfoldable pub delete : SafeMap V → String → SafeMap V
  delete sm key = if sm.closed then sm else record sm { store = Map.remove sm.store key }

  unfoldable pub len : SafeMap V → ℕ
  len sm = if sm.closed then 0 else Map.len sm.store

  -- result[k] = cloner(v), or v with no cloner, for each entry that `range` visits
  unfoldable pub copy_entries : Option (V → V) → Map V → List (String × V) → Map V
  copy_entries cloner result [] = result
  copy_entries none result ((k, v) ∷ l) = copy_entries none (Map.put result k v) l
  copy_entries (some f) result ((k, v) ∷ l) = copy_entries (some f) (Map.put result k (f v)) l

  -- `none` is the nil map of a closed SafeMap.
  unfoldable pub dump : Range V → SafeMap V → Option (V → V) → Option (Map V)
  unfolding copy_entries
  dump range sm cloner =
      if sm.closed then none else some (copy_entries cloner Map.empty (range.order sm.store))

module _ {V S : Type 0} where
  -- if v, ok := sm.store[key]; ok { err = op(v); found = true }
  unfoldable pub apply_op :
      SafeMap V
      → String
      → (V → S → Outcome (V × S × Option Error))
      → S
      → Option V
      → Outcome (SafeMap V × S × Option Error × Bool)
  apply_op sm key op s none = done (sm, s, none, false)
  apply_op sm key op s (some v) =
      op v s >>= λ r. done (record sm { store = Map.put sm.store key r.0 }, r.1, r.2, true)

  unfoldable pub get :
      SafeMap V
      → String
      → (V → S → Outcome (V × S × Option Error))
      → S
      → Outcome (SafeMap V × S × Option Error × Bool)
  unfolding apply_op
  get sm key op s =
      if sm.closed
      then done (sm, s, some map_closed, false)
      else apply_op sm key op s (Map.get sm.store key)

module _ {S : Type 0} where
  -- What Walk does with the answer of a visit: an error ends the walk, and so does `false`.
  unfoldable pub after_visit :
      (S → Outcome (S × Option Error)) → S × Bool × Option Error → Outcome (S × Option Error)
  after_visit rest (s, keepgoing, some e) = done (s, some e)
  after_visit rest (s, false, none) = done (s, none)
  after_visit rest (s, true, none) = rest s

module _ {V S : Type 0} where
  -- The loop of Walk.
  unfoldable pub walk_entries :
      (String → V → S → Outcome (S × Bool × Option Error))
      → List (String × V)
      → S
      → Outcome (S × Option Error)
  unfolding after_visit
  walk_entries walk_func [] s = done (s, none)
  walk_entries walk_func ((k, v) ∷ l) s = walk_func k v s >>= after_visit (walk_entries walk_func l)

  unfoldable pub walk :
      Range V
      → SafeMap V
      → (String → V → S → Outcome (S × Bool × Option Error))
      → S
      → Outcome (S × Option Error)
  unfolding walk_entries
  walk range sm walk_func s =
      if sm.closed
      then done (s, some map_closed)
      else walk_entries walk_func (range.order sm.store) s
