-- ===== src/User.antt =====
-- webrtc-server/pkg/models/user: the in-memory user store and its manager. The four index maps of
-- a store are references in the source, and Clone copies the references: `heap` holds what each
-- reference points to, so that two stores can share their maps. The maps of a store are allocated
-- together, and one reference stands for the four. `address` is the identity of a store, which
-- CompareAndSwap compares. `next` is the next free reference.
pub mod Manager
pub mod Index
pub mod Store
pub mod Lookup
pub mod Requests
pub mod Race
use webrtc_chat.Prelude.{
  ℕ, zero, suc, ◌+◌, String, Bool, true, false, Option, none, some, List, [], ◌∷◌, ◌++◌, Outcome,
  done, panic, index_out_of_range, ◌>>=◌, ◌==◌, nat_eq, is_some, if◌then◌else◌, length, get_elem?,
}
use webrtc_chat.Map
use webrtc_chat.Map.{Map}
use webrtc_chat.Errors.{Error, username_duplicated, Result, ok, err}

pub record User : Type 0 where
  pub id : String
  pub username : String
  pub display_name : String
  pub avatar_url : String
  pub github_id : String
  pub dn42_asn : String
  pub google_id : String
  pub is_bot : Bool

pub record UserCreationPayload : Type 0 where
  pub username : String
  pub display_name : String
  pub avatar_url : String

-- IndexById, IndexByGithubId, IndexByUsername and IndexByDN42ASN
pub record Indexes : Type 0 where
  pub by_id : Map ℕ
  pub by_github_id : Map ℕ
  pub by_username : Map ℕ
  pub by_dn42_asn : Map ℕ

pub record InMemoryUserStore : Type 0 where
  pub address : ℕ
  pub users : List User
  pub indexes : ℕ

-- The state of MemoryUserManager: the atomic pointer, and the memory that stores refer to.
pub record Memory : Type 0 where
  pub store : Option InMemoryUserStore
  pub heap : ℕ → Indexes
  pub next : ℕ

abbrev pub no_indexes : Indexes
no_indexes = record {
  by_id = Map.empty;
  by_github_id = Map.empty;
  by_username = Map.empty;
  by_dn42_asn = Map.empty;
}

-- A MemoryUserManager before its first user.
abbrev pub init : Memory
init = record { store = none; heap = λ r. no_indexes; next = 0 }

unfoldable pub update_index : User → ℕ → Indexes → Indexes
update_index u i indexes = record {
  by_id = Map.put indexes.by_id u.id i;
  by_github_id = Map.put indexes.by_github_id u.github_id i;
  by_username = Map.put indexes.by_username u.username i;
  by_dn42_asn = Map.put indexes.by_dn42_asn u.dn42_asn i;
}

-- for i := range store.Users { newStore.updateIndex(&u, i) }, from position `i` on
unfoldable pub index_all : List User → ℕ → Indexes → Indexes
unfolding update_index
index_all [] i indexes = indexes
index_all (u ∷ us) i indexes = index_all us (suc i) (update_index u i indexes)

-- A write through a reference to maps.
abbrev pub write : ℕ → Indexes → Memory → Memory
write r indexes mem = record mem { heap = λ q. if nat_eq r q then indexes else mem.heap q }

-- Clone. Fresh maps are made first, and `*newStore = *store` then overwrites the references to them
-- with those of the old store, so the loop writes to the old store's maps.
unfoldable pub clone : Option InMemoryUserStore → Memory → InMemoryUserStore × Memory
unfolding index_all
clone none mem =
    let made = write mem.next no_indexes (record mem { next = suc mem.next }) in
    (record { address = mem.next; users = []; indexes = mem.next }, made)
clone (some store) mem =
    let made = write mem.next no_indexes (record mem { next = suc mem.next }) in
    (
      record { address = mem.next; users = store.users; indexes = store.indexes },
      write store.indexes (index_all store.users 0 (made.heap store.indexes)) made,
    )

-- What follows Clone in AddUser, over the clone.
unfoldable pub append_user : User → InMemoryUserStore × Memory → Result InMemoryUserStore × Memory
unfolding update_index
append_user user (new_store, mem) =
    if is_some (Map.get (mem.heap new_store.indexes).by_username user.username)
    then (err username_duplicated, mem)
    else (
      ok (record new_store { users = new_store.users ++ user ∷ [] }),
      write new_store.indexes
          (update_index user (length new_store.users) (mem.heap new_store.indexes)) mem,
    )

unfoldable pub add_user :
    Option InMemoryUserStore → User → Memory → Result InMemoryUserStore × Memory
unfolding clone append_user
add_user store user mem = append_user user (clone store mem)

-- memUserMngr.store.CompareAndSwap(oldStore, newStore)
abbrev pub same_store : Option InMemoryUserStore → Option InMemoryUserStore → Bool
same_store none none = true
same_store none (some t) = false
same_store (some s) none = false
same_store (some s) (some t) = nat_eq s.address t.address

unfoldable pub compare_and_swap :
    Option InMemoryUserStore → InMemoryUserStore → Memory → Bool × Memory
compare_and_swap old new_store mem =
    if same_store mem.store old then (true, record mem { store = some new_store }) else (false, mem)

-- &store.Users[idx]
unfoldable pub user_at : InMemoryUserStore → ℕ → Outcome User
user_at store idx = elim (get_elem? store.users idx) [
  | none ↦ panic index_out_of_range
  | some u ↦ done u
]
