-- ===== src/Map/Assoc.antt =====
-- Association lists with string keys, behind `Map`.
use webrtc_chat.Prelude.{
  String, ◌≡◌, refl, Option, none, some, List, [], ◌∷◌, arith, ◌==◌, eq_iff, eq_refl, if◌then◌else◌,
}

module _ {ℓ} {V : Type ℓ} where
  -- m[key], of the first entry with the key.
  unfoldable pub lookup : String → List (String × V) → Option V
  lookup key [] = none
  lookup key ((name, value) ∷ others) = if name == key then some value else lookup key others

  -- No key stands in two entries.
  abbrev pub Distinct : List (String × V) → Type ℓ
  Distinct [] = Unit
  Distinct ((k, v) ∷ l) = (lookup k l ≡ none) × Distinct l

  unfoldable pub without : String → List (String × V) → List (String × V)
  without gone [] = []
  without gone (entry ∷ others) =
      let kept = without gone others in if entry.0 == gone then kept else entry ∷ kept

  -- The first entry of each key.
  unfoldable pub dedup : List (String × V) → List (String × V)
  unfolding without
  dedup [] = []
  dedup ((j, v) ∷ l) = (j, v) ∷ without j (dedup l)

  pub lookup-without :
      (gone key : String) (entries : List (String × V))
      → lookup key (without gone entries) ≡ (if gone == key then none else lookup key entries)
  unfolding lookup without
  lookup-without gone key [] = ground arith
  lookup-without gone key ((name, value) ∷ others) =
      ground
        (arith, eq_iff gone key, eq_iff name gone, eq_iff name key, lookup-without gone key others)

module _ {ℓ} {V : Type ℓ} where
  pub lookup-dedup : (k : String) (l : List (String × V)) → lookup k (dedup l) ≡ lookup k l
  unfolding lookup dedup
  lookup-dedup k [] = refl
  lookup-dedup k ((j, v) ∷ l) = ground (arith, lookup-without j k (dedup l), lookup-dedup k l)

  without-Distinct : (k : String) (l : List (String × V)) → Distinct l → Distinct (without k l)
  unfolding without
  without-Distinct k [] h = h
  without-Distinct k ((j, v) ∷ l) h =
      ground (arith, without-Distinct k l, lookup-without k j l, eq_iff k j, eq_iff j k)

  pub dedup-Distinct : (l : List (String × V)) → Distinct (dedup l)
  unfolding dedup
  dedup-Distinct [] = tt
  dedup-Distinct ((j, v) ∷ l) =
      (simp (lookup-without, eq_refl), without-Distinct j (dedup l) (dedup-Distinct l))
