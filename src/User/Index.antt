-- ===== src/User/Index.antt =====
-- webrtc-server/pkg/models/user: what an index map holds. The specification of each index is the
-- position of the last user in the list with that text in the indexed field.
use webrtc_chat.Prelude.{
  ℕ, zero, suc, ◌+◌, ◌-◌, ◌≤◌, String, ◌≡◌, refl, false, Option, none, some, List, [], ◌∷◌, ◌++◌,
  arith, ◌==◌, eq_iff, if◌then◌else◌, length, get_elem?, Option-cases, inl, inr,
}
use webrtc_chat.Map
use webrtc_chat.Map.{get-put, get-empty}
use webrtc_chat.User.{User, Indexes, update_index, index_all}
use webrtc_chat.User.Manager.{
  Key, by_id, by_github_id, by_username, by_dn42_asn, index_of, field_of,
}

abbrev pub or_index : Option ℕ → Option ℕ → Option ℕ
or_index (some j) o = some j
or_index none o = o

-- The last position from `i` on of a user whose field is `k`.
unfoldable pub last_from : Key → String → ℕ → List User → Option ℕ
last_from key k i [] = none
last_from key k i (u ∷ us) =
    or_index (last_from key k (suc i) us) (if field_of key u == k then some i else none)

-- Every index of the four agrees with the list.
abbrev pub Agrees : List User → Indexes → Type 0
Agrees users indexes =
    (key : Key) (k : String) → Map.get (index_of key indexes) k ≡ last_from key k 0 users

index_of-update_index :
    (key : Key) (u : User) (i : ℕ) (indexes : Indexes)
    → index_of key (update_index u i indexes) ≡ Map.put (index_of key indexes) (field_of key u) i
unfolding update_index
index_of-update_index by_id u i indexes = refl
index_of-update_index by_github_id u i indexes = refl
index_of-update_index by_username u i indexes = refl
index_of-update_index by_dn42_asn u i indexes = refl

pub get-update_index :
    (key : Key) (u : User) (i : ℕ) (indexes : Indexes) (k : String)
    → Map.get (index_of key (update_index u i indexes)) k
      ≡ (if field_of key u == k then some i else Map.get (index_of key indexes) k)
get-update_index key u i indexes k =
    rw (index_of-update_index key u i indexes) (get-put (index_of key indexes) (field_of key u) k i)

pub get-index_all :
    (key : Key) (us : List User) (i : ℕ) (indexes : Indexes) (k : String)
    → Map.get (index_of key (index_all us i indexes)) k
      ≡ or_index (last_from key k i us) (Map.get (index_of key indexes) k)
unfolding index_all last_from
get-index_all key [] i indexes k = refl
get-index_all key (u ∷ us) i indexes k = ground (
  arith,
  get-index_all key us (suc i) (update_index u i indexes) k,
  get-update_index key u i indexes k,
)

pub last_from-append :
    (key : Key) (k : String) (i : ℕ) (us : List User) (u : User)
    → last_from key k i (us ++ u ∷ [])
      ≡ (if field_of key u == k then some (i + length us) else last_from key k i us)
unfolding last_from
last_from-append key k i [] u = ground arith
last_from-append key k i (v ∷ us) u = ground (arith, last_from-append key k (suc i) us u)

head_hit :
    (key : Key) (k : String) (i j : ℕ) (u : User) (us : List User)
    → last_from key k (suc i) us ≡ none
    → last_from key k i (u ∷ us) ≡ some j
    → (j - i ≡ 0) × (i ≤ j) × (field_of key u ≡ k)
unfolding last_from
head_hit key k i j u us e h = ground (arith, eq_iff (field_of key u) k)

tail_hit :
    (key : Key) (k : String) (i j n : ℕ) (u : User) (us : List User)
    → last_from key k (suc i) us ≡ some n
    → last_from key k i (u ∷ us) ≡ some j
    → last_from key k (suc i) us ≡ some j
unfolding last_from
tail_hit key k i j n u us e h = ground arith

-- A position of the specification holds a user with the field.
pub last_from_sound :
    (key : Key) (k : String) (i j : ℕ) (us : List User)
    → last_from key k i us ≡ some j
    → (i ≤ j) × ((u : User) × (get_elem? us (j - i) ≡ some u) × (field_of key u ≡ k))
unfolding last_from
last_from_sound key k i j [] h = cc
last_from_sound key k i j (u ∷ us) h = elim (Option-cases (last_from key k (suc i) us)) [
  | inl e ↦ let (z, le, eq) = head_hit key k i j u us e h in (le, (u, rw z, eq))
  | inr (n, e) ↦
      let (le, (v, at, eq)) = last_from_sound key k (suc i) j us (tail_hit key k i j n u us e h) in
      let s : j - i ≡ suc (j - suc i) = omega arith in (omega arith, (v, rw s at, eq))
]

-- Where the specification has none, no user has the field.
pub last_from-none :
    (key : Key) (k : String) (i n : ℕ) (us : List User) (u : User)
    → last_from key k i us ≡ none
    → get_elem? us n ≡ some u
    → (field_of key u == k) ≡ false
unfolding last_from
last_from-none key k i n [] u h e = cc
last_from-none key k i zero (v ∷ us) u h e = ground arith
last_from-none key k i (suc n) (v ∷ us) u h e = ground (arith, last_from-none key k (suc i) n us u)
