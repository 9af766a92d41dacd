-- ===== src/Map.antt =====
-- Go's `map[string]V` and `sync.Map` with string keys: lookup, assignment, `delete`, `len` and
-- `range`. The order of `range` is not fixed by the language: code that iterates takes it from a
-- `Range`. The representation is private.
pub mod Assoc
use webrtc_chat.Prelude.{
  ℕ, suc, String, ◌≡◌, refl, Option, none, some, List, [], ◌∷◌, arith, ◌==◌, eq_iff, is_some,
  if◌then◌else◌, length, eq_refl, ◌∙◌, sym, Bool-cases, inl, inr, true, false,
}
use Assoc.{lookup, without, dedup, lookup-without, lookup-dedup, Distinct, dedup-Distinct}

pub record Map {ℓ} (V : Type ℓ) : Type ℓ where
  raw : List (String × V)

module _ {ℓ} {V : Type ℓ} where
  unfoldable pub empty : Map V
  empty = record { raw = [] }

  -- v, ok := m[k]
  unfoldable pub get : Map V → String → Option V
  unfolding lookup
  get m k = lookup k m.raw

  -- m[k] = v
  unfoldable pub put : Map V → String → V → Map V
  unfolding without
  put m k v = record { raw = (k, v) ∷ without k m.raw }

  -- delete(m, k)
  unfoldable pub remove : Map V → String → Map V
  unfolding without
  remove m k = record { raw = without k m.raw }

  -- One order in which `range` may visit the map.
  unfoldable pub entries : Map V → List (String × V)
  unfolding dedup
  entries m = dedup m.raw

  -- len(m)
  unfoldable pub len : Map V → ℕ
  unfolding entries
  len m = length (entries m)

  pub get-put :
      (m : Map V) (k j : String) (v : V) → get (put m k v) j ≡ (if k == j then some v else get m j)
  unfolding get put lookup
  get-put m k j v = rw (lookup-without k j m.raw) (ground arith)

  pub get-remove :
      (m : Map V) (k j : String) → get (remove m k) j ≡ (if k == j then none else get m j)
  unfolding get remove
  get-remove m k j = lookup-without k j m.raw

  pub lookup-entries : (m : Map V) (k : String) → lookup k (entries m) ≡ get m k
  unfolding get entries
  lookup-entries m k = lookup-dedup k m.raw

  pub entries-Distinct : (m : Map V) → Distinct (entries m)
  unfolding entries
  entries-Distinct m = dedup-Distinct m.raw

module _ {ℓ} {V : Type ℓ} (m : Map V) (k : String) where
  pub get-put_self : (v : V) → get (put m k v) k ≡ some v
  get-put_self v = get-put m k k v ∙ rw (eq_refl k) refl

  pub get-put_other : (j : String) (v : V) → (k == j) ≡ false → get (put m k v) j ≡ get m j
  get-put_other j v apart = get-put m k j v ∙ rw apart refl

  pub get-remove_self : get (remove m k) k ≡ none
  get-remove_self = get-remove m k k ∙ rw (eq_refl k) refl

  pub get-remove_other : (j : String) → (k == j) ≡ false → get (remove m k) j ≡ get m j
  get-remove_other j apart = get-remove m k j ∙ rw apart refl

  -- What is still there was there before, under another key.
  pub get-remove-some :
      (j : String) {v : V} → get (remove m k) j ≡ some v → ((k == j) ≡ false) × (get m j ≡ some v)
  get-remove-some j h = elim (Bool-cases (k == j)) [
    | inl gone ↦
        let absent : get (remove m k) j ≡ none = get-remove m k j ∙ rw gone refl in
        absurd (cc (absent, h))
    | inr apart ↦ (apart, sym (get-remove_other j apart) ∙ h)
  ]

pub get-empty {ℓ} : {V : Type ℓ} (k : String) → get (empty {V = V}) k ≡ none
unfolding get empty
get-empty k = refl

-- What `range` promises: every entry once, in an order of its own.
pub record Range {ℓ} (V : Type ℓ) : Type ℓ where
  pub order : Map V → List (String × V)
  pub distinct : (m : Map V) → Distinct (order m)
  pub visits : (m : Map V) (k : String) → lookup k (order m) ≡ get m k

-- `entries` is such an order.
abbrev pub entries_range {ℓ} : (V : Type ℓ) → Range V
entries_range V = record { order = entries; distinct = entries-Distinct; visits = lookup-entries }

pub ruleset map_laws = (get-empty, get-put, get-remove)
