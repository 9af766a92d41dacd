-- ===== src/User/Race/Shared.antt =====
-- webrtc-server/pkg/models/user: Clone leaves the new store with the maps of the old one, so an
-- attempt writes its index entries into the published maps before its CompareAndSwap.
use webrtc_chat.Prelude.{
  ℕ, suc, ◌<◌, String, ◌≡◌, refl, ◌∙◌, ap, Option, none, some, [], ◌∷◌, ◌++◌, ◌==◌, if◌then◌else◌,
  length,
}
use webrtc_chat.Map
use webrtc_chat.Errors.{ok}
use webrtc_chat.User.{
  User, InMemoryUserStore, Memory, write, update_index, clone, append_user, add_user,
}
use webrtc_chat.User.Manager.{Key, by_username, index_of, field_of}
use webrtc_chat.User.Index.{last_from, or_index, get-index_all, get-update_index}
use webrtc_chat.User.Store.{nat_eq_refl, nat_eq_gt}

-- What an index of the maps of a store shows, once Clone has run over the users.
abbrev pub shown : Key → String → InMemoryUserStore → Memory → Option ℕ
shown key k store mem =
    or_index (last_from key k 0 store.users) (Map.get (index_of key (mem.heap store.indexes)) k)

abbrev pub grown_store : InMemoryUserStore → User → Memory → InMemoryUserStore
grown_store store user mem = record {
  address = mem.next;
  users = store.users ++ user ∷ [];
  indexes = store.indexes;
}

clone-shown :
    (store : InMemoryUserStore) (mem : Memory) (key : Key) (k : String)
    → store.indexes < mem.next
    → Map.get (index_of key ((clone (some store) mem).1.heap store.indexes)) k
      ≡ shown key k store mem
unfolding clone
clone-shown store mem key k lt =
    rw (nat_eq_refl store.indexes, nat_eq_gt mem.next store.indexes lt)
      (get-index_all key store.users 0 (mem.heap store.indexes) k)

clone_rest :
    (store : InMemoryUserStore) (mem : Memory)
    → ((clone (some store) mem).0
        ≡ record { address = mem.next; users = store.users; indexes = store.indexes })
      × ((clone (some store) mem).1.store ≡ mem.store)
      × ((clone (some store) mem).1.next ≡ suc mem.next)
unfolding clone
clone_rest store mem = (refl, refl, refl)

append_user_shared :
    (new_store : InMemoryUserStore) (user : User) (mem : Memory)
    → Map.get (index_of by_username (mem.heap new_store.indexes)) user.username ≡ none
    → (mem' : Memory) × (append_user user (new_store, mem)
        ≡ (ok (record new_store { users = new_store.users ++ user ∷ [] }), mem'))
      × (mem'.store ≡ mem.store)
      × (mem'.next ≡ mem.next)
      × ((key : Key) (k : String)
          → Map.get (index_of key (mem'.heap new_store.indexes)) k ≡ (
              if field_of key user == k
              then some (length new_store.users)
              else Map.get (index_of key (mem.heap new_store.indexes)) k))
unfolding append_user
append_user_shared new_store user mem free = (
  write new_store.indexes (update_index user (length new_store.users) (mem.heap new_store.indexes))
      mem,
  rw free,
  refl,
  refl,
  λ key k.
      rw (nat_eq_refl new_store.indexes)
        (get-update_index key user (length new_store.users) (mem.heap new_store.indexes) k),
)

-- AddUser on a published store writes the user's entries into the maps that the store shares.
pub add_user_shared :
    (store : InMemoryUserStore) (user : User) (mem : Memory)
    → store.indexes < mem.next
    → shown by_username user.username store mem ≡ none
    → (mem' : Memory) × (add_user (some store) user mem ≡ (ok (grown_store store user mem), mem'))
      × (mem'.store ≡ mem.store)
      × (mem'.next ≡ suc mem.next)
      × ((key : Key) (k : String)
          → Map.get (index_of key (mem'.heap store.indexes)) k
            ≡ (if field_of key user == k then some (length store.users) else shown key k store mem))
unfolding add_user
add_user_shared store user mem lt free =
    let cloned : InMemoryUserStore = record {
      address = mem.next;
      users = store.users;
      indexes = store.indexes;
    } in
    let m₁ = (clone (some store) mem).1 in
    let (_, kept, next) = clone_rest store mem in
    let (m₂, ran, kept', next', get') =
      append_user_shared cloned user m₁
        (clone-shown store mem by_username user.username lt ∙ free) in
    (
      m₂,
      ran,
      kept' ∙ kept,
      next' ∙ next,
      λ key k.
          get' key k
          ∙ ap (λ o. if field_of key user == k then some (length store.users) else o)
              (clone-shown store mem key k lt),
    )
