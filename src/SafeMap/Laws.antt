-- ===== src/SafeMap/Laws.antt =====
-- What the requests of an open SafeMap do, seen through `Map.get`.
use webrtc_chat.Prelude.{
  String, ◌≡◌, refl, Bool, true, false, Option, none, some, List, [], ◌∷◌, arith, Outcome, done,
  ◌==◌, eq_iff, Bool-cases, inl, inr,
}
use mathlib.Core.Option
use webrtc_chat.Map
use webrtc_chat.Map.{Map, Range, map_laws, get-put, get-empty}
use webrtc_chat.Map.Assoc.{lookup, Distinct}
use webrtc_chat.Errors.{Error}
use webrtc_chat.SafeMap.{SafeMap, dump, copy_entries, walk_entries}

abbrev pub clone_with : {V : Type 0} → Option (V → V) → V → V
clone_with none v = v
clone_with (some f) v = f v

module _ {V : Type 0} where
  copy_entries_lem :
      (cloner : Option (V → V)) (result : Map V) (l : List (String × V)) (k : String)
      → Distinct l
      → Map.get (copy_entries cloner result l) k
        ≡ elim (lookup k l) [ some v ↦ some (clone_with cloner v) | none ↦ Map.get result k ]
  unfolding copy_entries lookup
  copy_entries_lem none result [] k h = refl
  copy_entries_lem (some f) result [] k h = refl
  copy_entries_lem none result ((j, v) ∷ l) k h =
      ground
        (arith, copy_entries_lem none (Map.put result j v) l k, get-put result j k v, eq_iff j k)
  copy_entries_lem (some f) result ((j, v) ∷ l) k h = ground (
    arith,
    copy_entries_lem (some f) (Map.put result j (f v)) l k,
    get-put result j k (f v),
    eq_iff j k,
  )

  pub get-copy_entries :
      (range : Range V) (cloner : Option (V → V)) (m : Map V) (k : String)
      → Map.get (copy_entries cloner Map.empty (range.order m)) k
        ≡ Option.map (clone_with cloner) (Map.get m k)
  get-copy_entries range cloner m k = ground (
    arith,
    copy_entries_lem cloner Map.empty (range.order m) k (range.distinct m),
    range.visits m k,
    get-empty {V = V} k,
  )

  -- Dump of an open map returns a map that holds at each key the clone of what is stored there,
  -- and nothing at the other keys, whatever the order of iteration and with or without a cloner.
  pub get-dump :
      (range : Range V) (sm : SafeMap V) (cloner : Option (V → V))
      → sm.closed ≡ false
      → (m : Map V) × (dump range sm cloner ≡ some m)
        × ((k : String) → Map.get m k ≡ Option.map (clone_with cloner) (Map.get sm.store k))
  unfolding dump
  get-dump range sm cloner h = (
    copy_entries cloner Map.empty (range.order sm.store),
    ground arith,
    get-copy_entries range cloner sm.store,
  )

  -- A walk that stops at one key, where it sets its variables from the value there, and that
  -- passes all other keys, ends with what is stored at the key.
  pub walk_entries-stop :
      {S : Type 0} (f : String → V → S → Outcome (S × Bool × Option Error)) (key : String) (s : S)
      (g : V → S) (l : List (String × V))
      → ((k : String) (w : V) → (k == key) ≡ false → f k w s ≡ done (s, true, none))
      → ((k : String) (w : V) → (k == key) ≡ true → f k w s ≡ done (g w, false, none))
      → walk_entries f l s ≡ done (elim (lookup key l) [ some v ↦ g v | none ↦ s ], none)
  unfolding walk_entries lookup
  walk_entries-stop f key s g [] pass stop = refl
  walk_entries-stop f key s g ((j, w) ∷ l) pass stop = elim (Bool-cases (j == key)) [
    | inl e ↦ rw (stop j w e, e) refl
    | inr e ↦ rw (pass j w e, e) (walk_entries-stop f key s g l pass stop)
  ]
