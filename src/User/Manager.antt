-- ===== src/User/Manager.antt =====
-- webrtc-server/pkg/models/user: MemoryUserManager. A compare-and-swap loop is cut into attempts.
-- Between the Load and the CompareAndSwap of an attempt other goroutines may run: `others` is what
-- they do to the memory. A schedule lists the others of the first attempts; the attempt after them
-- runs undisturbed. `new_id` is the text that uuid.NewString would return.
use webrtc_chat.Prelude.{
  String, Bool, true, false, Option, none, some, List, [], ◌∷◌, Outcome, done, ◌>>=◌, ◌==◌, is_some,
  if◌then◌else◌, ℕ,
}
use webrtc_chat.Map
use webrtc_chat.Map.{Map}
use webrtc_chat.Errors.{username_duplicated, Result, ok, err}
use webrtc_chat.User.{
  User, UserCreationPayload, Indexes, InMemoryUserStore, Memory, add_user, compare_and_swap,
  user_at,
}

-- Which index a lookup reads.
pub data Key : Type 0 where
  by_id by_github_id by_username by_dn42_asn : Key

abbrev pub index_of : Key → Indexes → Map ℕ
index_of by_id indexes = indexes.by_id
index_of by_github_id indexes = indexes.by_github_id
index_of by_username indexes = indexes.by_username
index_of by_dn42_asn indexes = indexes.by_dn42_asn

abbrev pub field_of : Key → User → String
field_of by_id u = u.id
field_of by_github_id u = u.github_id
field_of by_username u = u.username
field_of by_dn42_asn u = u.dn42_asn

-- if oldStore != nil { idx, hit := oldStore.Index…[text] }
unfoldable pub hit : Key → String → Memory → Option InMemoryUserStore → Option ℕ
hit key text mem none = none
hit key text mem (some store) = Map.get (index_of key (mem.heap store.indexes)) text

-- &store.Users[idx] after a hit; with no hit, nil.
unfoldable pub user_hit : Option InMemoryUserStore → Option ℕ → Outcome (Option User)
unfolding user_at
user_hit none idx = done none
user_hit (some store) none = done none
user_hit (some store) (some idx) = user_at store idx >>= λ u. done (some u)

-- GetUserById is `get_user by_id`, GetUserByUsername is `get_user by_username`.
unfoldable pub get_user : Key → String → Memory → Outcome (Option User)
unfolding hit user_hit
get_user key text mem = user_hit mem.store (hit key text mem mem.store)

-- The end of an attempt: a return, or one more turn of the loop.
pub data Attempt (A : Type 0) : Type 0 where
  returned : Result A → Attempt A
  again : Attempt A

-- From AddUser on: an error is returned, and a failed CompareAndSwap goes round the loop.
unfoldable pub install :
    {A : Type 0}
    → Option InMemoryUserStore
    → A
    → (Memory → Memory)
    → Result InMemoryUserStore × Memory
    → Attempt A × Memory
unfolding compare_and_swap
install old value others (err e, mem) = (returned (err e), mem)
install old value others (ok new_store, mem) =
    let (swapped, mem') = compare_and_swap old new_store (others mem) in
    (if swapped then returned (ok value) else again, mem')

-- The body of the loops of doAddUserByGithubId and doAddUserByDN42ASN after `oldStore := Load()`.
-- The two differ in the index.
unfoldable pub attempt_on :
    Key
    → User
    → (Memory → Memory)
    → Memory
    → Option InMemoryUserStore
    → Outcome (Attempt (User × Bool) × Memory)
unfolding hit user_hit add_user install
attempt_on key user others mem old_store =
    user_hit old_store (hit key (field_of key user) mem old_store) >>= λ found. done (elim found [
      | some u ↦ (returned (ok (u, false)), mem)
      | none ↦ install old_store (user, true) others (add_user old_store user mem)
    ])

unfoldable pub attempt_add :
    Key → User → (Memory → Memory) → Memory → Outcome (Attempt (User × Bool) × Memory)
unfolding attempt_on
attempt_add key user others mem = attempt_on key user others mem mem.store

-- One turn of the loop of CreateUser.
unfoldable pub attempt_create : User → (Memory → Memory) → Memory → Outcome (Attempt User × Memory)
unfolding hit add_user install
attempt_create user others mem = done (
    if is_some (hit by_username user.username mem mem.store)
    then (returned (err username_duplicated), mem)
    else install mem.store user others (add_user mem.store user mem))

-- The loop around an attempt.
unfoldable pub repeat :
    {A : Type 0}
    → ((Memory → Memory) → Memory → Outcome (Attempt A × Memory))
    → List (Memory → Memory)
    → Memory
    → Outcome (Attempt A × Memory)
repeat attempt [] mem = attempt (λ m. m) mem
repeat attempt (others ∷ schedule) mem = attempt others mem >>= λ r. elim r.0 [
  | returned a ↦ done (returned a, r.1)
  | again ↦ repeat attempt schedule r.1
]

-- doAddUserByGithubId and doAddUserByDN42ASN
unfoldable pub do_add_user_by_github_id :
    User → List (Memory → Memory) → Memory → Outcome (Attempt (User × Bool) × Memory)
unfolding repeat attempt_add
do_add_user_by_github_id user schedule mem = repeat (attempt_add by_github_id user) schedule mem

unfoldable pub do_add_user_by_dn42_asn :
    User → List (Memory → Memory) → Memory → Outcome (Attempt (User × Bool) × Memory)
unfolding repeat attempt_add
do_add_user_by_dn42_asn user schedule mem = repeat (attempt_add by_dn42_asn user) schedule mem

abbrev with_id : String → User → User
with_id new_id user = if user.id == "" then record user { id = new_id } else user

-- The parameters githubId and dn42ASN are not read: the user's own fields are.
unfoldable pub load_or_create_new_user_by_github_id :
    String
    → String
    → User
    → List (Memory → Memory)
    → Memory
    → Outcome (Attempt (User × Bool) × Memory)
unfolding do_add_user_by_github_id
load_or_create_new_user_by_github_id new_id github_id new_user schedule mem =
    do_add_user_by_github_id (with_id new_id new_user) schedule mem

unfoldable pub load_or_create_new_user_by_dn42_asn :
    String
    → String
    → User
    → List (Memory → Memory)
    → Memory
    → Outcome (Attempt (User × Bool) × Memory)
unfolding do_add_user_by_dn42_asn
load_or_create_new_user_by_dn42_asn new_id dn42_asn new_user schedule mem =
    do_add_user_by_dn42_asn (with_id new_id new_user) schedule mem

abbrev pub user_of_payload : String → UserCreationPayload → Bool → User
user_of_payload new_id payload is_bot = record {
  id = new_id;
  username = payload.username;
  display_name = payload.display_name;
  avatar_url = payload.avatar_url;
  github_id = "";
  dn42_asn = "";
  google_id = "";
  is_bot = is_bot;
}

unfoldable pub create_user :
    String
    → UserCreationPayload
    → Bool
    → List (Memory → Memory)
    → Memory
    → Outcome (Attempt User × Memory)
unfolding repeat attempt_create
create_user new_id payload is_bot schedule mem =
    repeat (attempt_create (user_of_payload new_id payload is_bot)) schedule mem
