-- ===== src/User/Store.antt =====
-- webrtc-server/pkg/models/user: Clone and AddUser of one goroutine keep the store well formed.
use webrtc_chat.Prelude.{
  ℕ, suc, ◌<◌, String, ◌≡◌, refl, ◌∙◌, ap, true, false, Option, none, some, List, [], ◌∷◌, ◌++◌,
  arith, nat_eq, eq_iff, length, get_elem?, get_elem?-append_cases, inl, inr,
}
use webrtc_chat.Map
use webrtc_chat.Map.{get-empty}
use webrtc_chat.Errors.{username_duplicated, ok, err}
use webrtc_chat.User.{
  User, InMemoryUserStore, Memory, no_indexes, write, update_index, clone, append_user, add_user,
}
use webrtc_chat.User.Manager.{Key, by_id, by_github_id, by_username, by_dn42_asn, index_of}
use webrtc_chat.User.Index.{last_from, Agrees, get-index_all, get-update_index, last_from-append}

-- No two users share a username: each is the last one with its own.
abbrev pub UniqueNames : List User → Type 0
UniqueNames users =
    (i : ℕ) (u : User)
    → get_elem? users i ≡ some u
    → last_from by_username u.username 0 users ≡ some i

abbrev pub users_of : Option InMemoryUserStore → List User
users_of none = []
users_of (some store) = store.users

-- The published store agrees with its maps, which are allocated, and usernames are unique.
abbrev pub ValidStore : Option InMemoryUserStore → Memory → Type 0
ValidStore none mem = Unit {0}
ValidStore (some store) mem =
    Agrees store.users (mem.heap store.indexes)
    × (store.indexes < mem.next)
    × (store.address < mem.next)
    × UniqueNames store.users

abbrev pub IsValid : Memory → Type 0
IsValid mem = ValidStore mem.store mem

index_of-no_indexes : (key : Key) (k : String) → Map.get (index_of key no_indexes) k ≡ none
index_of-no_indexes by_id k = get-empty {V = ℕ} k
index_of-no_indexes by_github_id k = get-empty {V = ℕ} k
index_of-no_indexes by_username k = get-empty {V = ℕ} k
index_of-no_indexes by_dn42_asn k = get-empty {V = ℕ} k

pub nat_eq_refl : (n : ℕ) → nat_eq n n ≡ true
nat_eq_refl n = ground arith

pub nat_eq_gt : (n m : ℕ) → m < n → nat_eq n m ≡ false
nat_eq_gt n m h = ground arith

-- What Clone gives, as far as AddUser goes on with it.
pub record Cloned (store : Option InMemoryUserStore) (mem : Memory) (new_store : InMemoryUserStore)
    (mem' : Memory) : Type 0 where
  pub same_users : new_store.users ≡ users_of store
  pub agrees : Agrees new_store.users (mem'.heap new_store.indexes)
  pub unique : UniqueNames new_store.users
  pub address_new : new_store.address ≡ mem.next
  pub next_grows : mem'.next ≡ suc mem.next
  pub indexes_old : new_store.indexes < suc mem.next
  pub published : mem'.store ≡ mem.store
  pub still : ValidStore store mem'

-- Writing the index entries of all users once more changes nothing that a lookup shows.
rebuilt :
    (store : InMemoryUserStore) (mem : Memory)
    → ValidStore (some store) mem
    → Agrees store.users ((clone (some store) mem).1.heap store.indexes)
unfolding clone
rebuilt store mem v key k =
    rw (nat_eq_refl store.indexes, nat_eq_gt mem.next store.indexes v.1)
      (ground (arith, get-index_all key store.users 0 (mem.heap store.indexes) k, v.0 key k))

pub clone-Cloned :
    (store : Option InMemoryUserStore) (mem : Memory)
    → ValidStore store mem
    → Cloned store mem (clone store mem).0 (clone store mem).1
unfolding clone
clone-Cloned none mem v = record {
  same_users = refl;
  agrees = λ key k. rw (nat_eq_refl mem.next) (unfold last_from in index_of-no_indexes key k);
  unique = λ i u at. cc;
  address_new = refl;
  next_grows = refl;
  indexes_old = omega arith;
  published = refl;
  still = tt;
}
clone-Cloned (some store) mem v = record {
  same_users = refl;
  agrees = rebuilt store mem v;
  unique = v.3;
  address_new = refl;
  next_grows = refl;
  indexes_old = omega arith;
  published = refl;
  still = (rebuilt store mem v, omega arith, omega arith, v.3);
}

UniqueNames-append :
    (users : List User) (user : User)
    → UniqueNames users
    → last_from by_username user.username 0 users ≡ none
    → UniqueNames (users ++ user ∷ [])
UniqueNames-append users user unique free i u at = elim (get_elem?-append_cases users user i at) [
  | inl old ↦ ground (
    arith,
    last_from-append by_username u.username 0 users user,
    unique i u old,
    eq_iff user.username u.username,
  )
  | inr (e, same) ↦
      ground (
        arith,
        last_from-append by_username u.username 0 users user,
        eq_iff user.username u.username,
      )
]

module _ (user : User) (new_store : InMemoryUserStore) (mem : Memory)
    (agrees : Agrees new_store.users (mem.heap new_store.indexes)) where
  append_user-taken :
      (j : ℕ)
      → last_from by_username user.username 0 new_store.users ≡ some j
      → append_user user (new_store, mem) ≡ (err username_duplicated, mem)
  unfolding append_user
  append_user-taken j taken = ground (arith, agrees by_username user.username)

  abbrev appended : InMemoryUserStore
  appended = record new_store { users = new_store.users ++ user ∷ [] }

  append_user-fresh :
      last_from by_username user.username 0 new_store.users ≡ none
      → (mem' : Memory) × (append_user user (new_store, mem) ≡ (ok appended, mem'))
        × (mem'.store ≡ mem.store)
        × (mem'.next ≡ mem.next)
        × Agrees (new_store.users ++ user ∷ []) (mem'.heap new_store.indexes)
  unfolding append_user
  append_user-fresh free = (
    write new_store.indexes
        (update_index user (length new_store.users) (mem.heap new_store.indexes)) mem,
    ground (arith, agrees by_username user.username),
    refl,
    refl,
    λ key k. rw (nat_eq_refl new_store.indexes) (
        ground (
          arith,
          get-update_index key user (length new_store.users) (mem.heap new_store.indexes) k,
          last_from-append key k 0 new_store.users user,
          agrees key k,
        )),
  )

-- AddUser of a username that is taken returns ErrUsernameDuplicated, and the memory is well formed
-- with the same store published.
pub add_user-taken :
    (store : Option InMemoryUserStore) (mem : Memory) (user : User) (j : ℕ)
    → ValidStore store mem
    → last_from by_username user.username 0 (users_of store) ≡ some j
    → (mem' : Memory) × (add_user store user mem ≡ (err username_duplicated, mem'))
      × (mem'.store ≡ mem.store)
      × ValidStore store mem'
unfolding add_user
add_user-taken store mem user j v taken =
    let c = clone-Cloned store mem v in
    let (new_store, mem') = clone store mem in
    (
      mem',
      append_user-taken user new_store mem' c.agrees j (rw c.same_users taken),
      c.published,
      c.still,
    )

-- AddUser of a username that is free returns the list with the user at its end, and the memory
-- would be well formed with the new store published.
pub add_user-fresh :
    (store : Option InMemoryUserStore) (mem : Memory) (user : User)
    → ValidStore store mem
    → last_from by_username user.username 0 (users_of store) ≡ none
    → (new_store : InMemoryUserStore) × (mem' : Memory) × (add_user store user mem
        ≡ (ok new_store, mem'))
      × (new_store.users ≡ users_of store ++ user ∷ [])
      × (new_store.address ≡ mem.next)
      × (mem'.store ≡ mem.store)
      × ValidStore (some new_store) mem'
unfolding add_user
add_user-fresh store mem user v free =
    let c = clone-Cloned store mem v in
    let (new_store, m) = clone store mem in
    let fresh : last_from by_username user.username 0 new_store.users ≡ none =
      rw c.same_users free in
    let (m', ran, kept, next, agrees) = append_user-fresh user new_store m c.agrees fresh in
    (
      appended user new_store m c.agrees,
      m',
      ran,
      ap (λ us. us ++ user ∷ []) c.same_users,
      c.address_new,
      kept ∙ c.published,
      (
        agrees,
        omega (arith, c.indexes_old, c.next_grows),
        omega (arith, c.address_new, c.next_grows),
        UniqueNames-append new_store.users user c.unique fresh,
      ),
    )
