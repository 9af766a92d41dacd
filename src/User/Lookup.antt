-- ===== src/User/Lookup.antt =====
-- webrtc-server/pkg/models/user: what the manager's GetUser methods find.
use webrtc_chat.Prelude.{
  ℕ, ◌-◌, String, ◌≡◌, refl, ◌⊎◌, false, Option, none, some, List, arith, Outcome, done, ◌==◌,
  get_elem?, inl, inr, Option-cases,
}
use webrtc_chat.User.{User, InMemoryUserStore, Memory}
use webrtc_chat.User.Manager.{Key, field_of, hit, user_hit, get_user}
use webrtc_chat.User.Index.{last_from, last_from_sound, last_from-none}
use webrtc_chat.User.Store.{IsValid, ValidStore, users_of}

-- The users that the manager has published.
abbrev pub published : Memory → List User
published mem = users_of mem.store

pub hit-eq-last_from :
    (key : Key) (k : String) (store : Option InMemoryUserStore) (mem : Memory)
    → ValidStore store mem
    → hit key k mem store ≡ last_from key k 0 (users_of store)
unfolding hit last_from
hit-eq-last_from key k none mem v = refl
hit-eq-last_from key k (some store) mem v = v.0 key k

sub-zero : (i : ℕ) → i - 0 ≡ i
sub-zero i = omega arith

user_hit-none : (store : Option InMemoryUserStore) → user_hit store none ≡ done none
unfolding user_hit
user_hit-none none = refl
user_hit-none (some store) = refl

user_hit-some :
    (store : Option InMemoryUserStore) (i : ℕ) {u : User}
    → get_elem? (users_of store) i ≡ some u
    → user_hit store (some i) ≡ done (some u)
unfolding user_hit
user_hit-some none i h = cc
user_hit-some (some store) i h = ground arith

-- What a lookup by index returns: nil and no user has the text in the field, or such a user.
abbrev pub Looked : Key → String → List User → Outcome (Option User) → Type 0
Looked key k users r =
    ((r ≡ done none)
      × ((n : ℕ) (u : User) → get_elem? users n ≡ some u → (field_of key u == k) ≡ false))
    ⊎ ((i : ℕ) × (u : User) × (r ≡ done (some u))
        × (get_elem? users i ≡ some u)
        × (field_of key u ≡ k))

pub look :
    (key : Key) (k : String) (mem : Memory)
    → IsValid mem
    → ((user_hit mem.store (hit key k mem mem.store) ≡ done none)
        × (last_from key k 0 (published mem) ≡ none))
      ⊎ ((i : ℕ) × (u : User) × (user_hit mem.store (hit key k mem mem.store) ≡ done (some u))
          × (get_elem? (published mem) i ≡ some u)
          × (field_of key u ≡ k))
look key k mem v = elim (Option-cases (last_from key k 0 (published mem))) [
  | inl e ↦ inl (rw (hit-eq-last_from key k mem.store mem v, e) (user_hit-none mem.store), e)
  | inr (i, e) ↦
      let (le, (u, at, same)) = last_from_sound key k 0 i (published mem) e in
      let found : get_elem? (published mem) i ≡ some u = rw (sub-zero i) at at in
      inr (
        i,
        u,
        rw (hit-eq-last_from key k mem.store mem v, e) (user_hit-some mem.store i found),
        found,
        same,
      )
]

-- In a well-formed memory GetUserById and GetUserByUsername do not panic: they return a published
-- user with that id or name, or nil, and then no published user has it.
pub get_user-Looked :
    (key : Key) (k : String) (mem : Memory)
    → IsValid mem
    → Looked key k (published mem) (get_user key k mem)
unfolding get_user
get_user-Looked key k mem v = elim (look key k mem v) [
  | inl (r, e) ↦ inl (r, λ n u at. last_from-none key k 0 n (published mem) u e at)
  | inr (i, u, r, at, same) ↦ inr (i, u, r, at, same)
]
