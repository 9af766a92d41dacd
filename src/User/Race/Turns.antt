-- ===== src/User/Race/Turns.antt =====
-- webrtc-server/pkg/models/user: one attempt of the insertion loop, that wins or loses its
-- CompareAndSwap.
use webrtc_chat.Prelude.{
  ℕ, suc, ◌<◌, String, ◌≡◌, refl, ◌∙◌, ap, Bool, true, false, none, some, done, ◌==◌, nat_eq,
  if◌then◌else◌, length, get_elem?,
}
use webrtc_chat.Map
use webrtc_chat.Errors.{ok}
use webrtc_chat.User.{User, user_at, InMemoryUserStore, Memory, add_user, compare_and_swap}
use webrtc_chat.User.Manager.{
  Key, by_github_id, by_username, index_of, field_of, returned, again, install, attempt_add,
  attempt_on,
}
use webrtc_chat.User.Lookup.{published}
use webrtc_chat.User.Store.{nat_eq_refl}
use webrtc_chat.User.Race.Shared.{shown, grown_store, add_user_shared}

-- An attempt that finds no user goes on to AddUser and the CompareAndSwap.
attempt_missed :
    (store : InMemoryUserStore) (user : User) (others : Memory → Memory) (mem : Memory)
    → Map.get (index_of by_github_id (mem.heap store.indexes)) user.github_id ≡ none
    → attempt_on by_github_id user others mem (some store)
      ≡ done (install (some store) (user, true) others (add_user (some store) user mem))
unfolding attempt_on
attempt_missed store user others mem missed = rw missed

-- One that finds a position returns the user there.
pub attempt_found :
    (store : InMemoryUserStore) (user : User) (others : Memory → Memory) (mem : Memory) (i : ℕ)
    (u : User)
    → Map.get (index_of by_github_id (mem.heap store.indexes)) user.github_id ≡ some i
    → get_elem? store.users i ≡ some u
    → attempt_on by_github_id user others mem (some store) ≡ done (returned (ok (u, false)), mem)
unfolding attempt_on
attempt_found store user others mem i u found at = rw (found, at, user_at)

pub turn :
    (user : User) (others : Memory → Memory) (mem : Memory)
    → attempt_add by_github_id user others mem ≡ attempt_on by_github_id user others mem mem.store
unfolding attempt_add
turn user others mem = refl

swap_same :
    (store new_store : InMemoryUserStore) (mem : Memory)
    → mem.store ≡ some store
    → compare_and_swap (some store) new_store mem ≡ (true, record mem { store = some new_store })
unfolding compare_and_swap
swap_same store new_store mem published = simp (published, nat_eq_refl)

swap_differs :
    (store new_store other : InMemoryUserStore) (mem : Memory)
    → mem.store ≡ some other
    → nat_eq other.address store.address ≡ false
    → compare_and_swap (some store) new_store mem ≡ (false, mem)
unfolding compare_and_swap
swap_differs store new_store other mem published differ = simp (published, differ)

-- What the maps of `store` show after a goroutine has appended `user` to its clone.
abbrev pub Marked : InMemoryUserStore → User → Memory → Memory → Type 0
Marked store user mem mem' =
    (key : Key) (k : String)
    → Map.get (index_of key (mem'.heap store.indexes)) k
      ≡ (if field_of key user == k then some (length store.users) else shown key k store mem)

module _ (store : InMemoryUserStore) (user : User) (mem : Memory) (at : mem.store ≡ some store)
    (lt : store.indexes < mem.next)
    (missed : Map.get (index_of by_github_id (mem.heap store.indexes)) user.github_id ≡ none)
    (free : shown by_username user.username store mem ≡ none) where
  added :
      (others : Memory → Memory) (m : Memory)
      → add_user (some store) user mem ≡ (ok (grown_store store user mem), m)
      → attempt_add by_github_id user others mem
        ≡ done (install (some store) (user, true) others (ok (grown_store store user mem), m))
  added others m ran =
      turn user others mem
      ∙ ap (attempt_on by_github_id user others mem) at
      ∙ attempt_missed store user others mem missed
      ∙ ap (λ r. done (install (some store) (user, true) others r)) ran

  installed :
      (others : Memory → Memory) (new_store : InMemoryUserStore) (m : Memory) (b : Bool)
      (m' : Memory)
      → compare_and_swap (some store) new_store (others m) ≡ (b, m')
      → install {A = User × Bool} (some store) (user, true) others (ok new_store, m)
        ≡ ((if b then returned (ok (user, true)) else again), m')
  unfolding install
  installed others new_store m b m' e =
      ap (λ (c : Bool × Memory). ((if c.0 then returned (ok (user, true)) else again), c.1)) e

  -- An undisturbed turn publishes the grown store.
  pub attempt_wins :
      (mem' : Memory) × (attempt_add by_github_id user (λ m. m) mem
        ≡ done (returned (ok (user, true)), mem'))
      × (mem'.store ≡ some (grown_store store user mem))
      × Marked store user mem mem'
  attempt_wins =
      let (m, ran, kept, next, marked) = add_user_shared store user mem lt free in
      let grown = grown_store store user mem in
      (
        record m { store = some grown },
        added (λ m. m) m ran
            ∙ ap done (
                installed (λ m. m) grown m true (record m { store = some grown })
                  (swap_same store grown m (kept ∙ at))),
        refl,
        marked,
      )

  -- A turn during which another store is published goes round the loop, with its marks left.
  pub attempt_loses :
      (others : Memory → Memory)
      → ((m : Memory)
          → m.store ≡ some store
          → m.next ≡ suc mem.next
          → Marked store user mem m
          → (other : InMemoryUserStore) × ((others m).store ≡ some other)
            × (nat_eq other.address store.address ≡ false))
      → (m : Memory) × (attempt_add by_github_id user others mem ≡ done (again, others m))
        × (m.store ≡ some store)
        × (m.next ≡ suc mem.next)
        × Marked store user mem m
  attempt_loses others replaced =
      let (m, ran, kept, next, marked) = add_user_shared store user mem lt free in
      let grown = grown_store store user mem in
      let (other, now, differ) = replaced m (kept ∙ at) next marked in
      (
        m,
        added others m ran
            ∙ ap done (
                installed others grown m false (others m)
                  (swap_differs store grown other (others m) now differ)),
        kept ∙ at,
        next,
        marked,
      )
