-- ===== src/User/Race.antt =====
-- webrtc-server/pkg/models/user: two requests that race. Clone leaves the new store with the maps of
-- the old one, so an attempt writes its index entries into the published maps before its
-- CompareAndSwap, and the entries stay there when that fails.
pub mod Shared
pub mod Turns
use webrtc_chat.Prelude.{
  ℕ, suc, ◌<◌, String, ◌≡◌, refl, ◌∙◌, sym, ap, Bool, true, false, Option, none, some, [], ◌∷◌,
  ◌++◌, arith, Outcome, done, panic, ◌>>=◌, ◌==◌, nat_eq, eq_refl, if◌then◌else◌, length, get_elem?,
  get_elem?-append_end,
}
use mathlib.Core.Path.{subst}
use webrtc_chat.Map
use webrtc_chat.Errors.{ok}
use webrtc_chat.User.{
  User, user_at, InMemoryUserStore, Memory, write, update_index, clone, append_user, add_user,
  compare_and_swap,
}
use webrtc_chat.User.Manager.{
  Key, by_github_id, by_username, index_of, field_of, Attempt, returned, again, install,
  attempt_add, attempt_on, repeat, do_add_user_by_github_id,
}
use webrtc_chat.User.Index.{last_from, or_index, get-index_all, get-update_index}
use webrtc_chat.User.Lookup.{published}
use webrtc_chat.User.Requests.{Free, Free-last_from}
use webrtc_chat.User.Store.{IsValid, ValidStore, users_of, nat_eq_refl, nat_eq_gt}
use webrtc_chat.User.Race.Shared.{shown, grown_store}
use webrtc_chat.User.Race.Turns.{attempt_found, turn, Marked, attempt_wins, attempt_loses}

abbrev pub memory_after : Outcome (Attempt (User × Bool) × Memory) → Memory → Memory
memory_after (done (r, m)) mem = m
memory_after (panic f) mem = mem

-- Another goroutine serves a whole GitHub login, undisturbed.
abbrev pub rival : User → Memory → Memory
rival user mem = memory_after (do_add_user_by_github_id user [] mem) mem

abbrev Absent : Key → String → InMemoryUserStore → Type 0
Absent key k store = last_from key k 0 store.users ≡ none

shown-none :
    (key : Key) (k : String) (store : InMemoryUserStore) (mem : Memory)
    → Absent key k store
    → Map.get (index_of key (mem.heap store.indexes)) k ≡ none
    → shown key k store mem ≡ none
shown-none key k store mem absent unmarked = rw absent unmarked

-- The marks of `b` are what `a` meets.
module _ (a b : User) (store : InMemoryUserStore) (mem m : Memory) (v : ValidStore (some store) mem)
    (at : m.store ≡ some store) (next : m.next ≡ suc mem.next) (marked : Marked store b mem m)
    (ids_differ : (b.github_id == a.github_id) ≡ false)
    (names_differ : (b.username == a.username) ≡ false)
    (a_new : Absent by_github_id a.github_id store) (a_free : Absent by_username a.username store)
    (b_new : Absent by_github_id b.github_id store) where
  unmarked :
      (key : Key) (k : String)
      → (field_of key b == k) ≡ false
      → Absent key k store
      → Map.get (index_of key (m.heap store.indexes)) k ≡ none
  unmarked key k differ absent =
      marked key k ∙ rw differ (shown-none key k store mem absent (v.0 key k ∙ absent))

  rival_wins :
      (mem' : Memory) × (rival a m ≡ mem')
      × (mem'.store ≡ some (grown_store store a m))
      × (Map.get (index_of by_github_id (mem'.heap store.indexes)) b.github_id
          ≡ some (length store.users))
  unfolding do_add_user_by_github_id repeat
  rival_wins =
      let a_missed = unmarked by_github_id a.github_id ids_differ a_new in
      let a_shown =
        shown-none by_username a.username store m a_free
          (unmarked by_username a.username names_differ a_free) in
      let (mem', ran, now, marks) =
        attempt_wins store a m at (omega (arith, v.1, next)) a_missed a_shown in
      (
        mem',
        ap (λ r. memory_after r m) ran,
        now,
        ground (
          arith,
          marks by_github_id b.github_id,
          marked by_github_id b.github_id,
          b_new,
          eq_refl b.github_id,
        ),
      )

meets_rival :
    (a b : User) (store : InMemoryUserStore) (m mem' : Memory)
    → rival a m ≡ mem'
    → mem'.store ≡ some (grown_store store a m)
    → Map.get (index_of by_github_id (mem'.heap store.indexes)) b.github_id
      ≡ some (length store.users)
    → attempt_add by_github_id b (λ m. m) (rival a m) ≡ done (returned (ok (a, false)), mem')
meets_rival a b store m mem' same grown found =
    ap (attempt_add by_github_id b (λ m. m)) same
    ∙ turn b (λ m. m) mem'
    ∙ ap (attempt_on by_github_id b (λ m. m) mem') grown
    ∙ attempt_found (grown_store store a m) b (λ m. m) mem' (length store.users) a found
        (get_elem?-append_end store.users a)

second_turn :
    (user : User) (others : Memory → Memory) (mem m : Memory)
    → attempt_add by_github_id user others mem ≡ done (again, m)
    → do_add_user_by_github_id user (others ∷ []) mem ≡ attempt_add by_github_id user (λ m. m) m
unfolding do_add_user_by_github_id repeat
second_turn user others mem m lost =
    ap
      (λ r. r >>= λ r. elim r.0 [
        | returned a ↦ done (returned a, r.1)
        | again ↦ attempt_add by_github_id user (λ m. m) r.1
      ])
      lost

-- Two first logins by GitHub accounts with different ids and usernames, which no user has, race on a
-- well formed store that is already published: while `b` is between its Load and its CompareAndSwap,
-- `a` is served whole. Then `b` is answered with the user of `a`, as one that existed, and of the two
-- only `a` is published.
pub race_swaps_identity :
    (a b : User) (store : InMemoryUserStore) (mem : Memory)
    → IsValid mem
    → mem.store ≡ some store
    → (b.github_id == a.github_id) ≡ false
    → (b.username == a.username) ≡ false
    → Free by_github_id a.github_id mem
    → Free by_username a.username mem
    → Free by_github_id b.github_id mem
    → Free by_username b.username mem
    → (mem' : Memory) × (do_add_user_by_github_id b (rival a ∷ []) mem
        ≡ done (returned (ok (a, false)), mem'))
      × (published mem' ≡ published mem ++ a ∷ [])
race_swaps_identity a b store mem valid at ids names a_new a_free b_new b_free =
    let v : ValidStore (some store) mem = subst (λ s. ValidStore s mem) at valid in
    let absent = λ (key : Key) (k : String) (f : Free key k mem).
      ap (λ s. last_from key k 0 (users_of s)) (sym at) ∙ Free-last_from key k mem f in
    let wins =
      λ (m : Memory) (now : m.store ≡ some store) (next : m.next ≡ suc mem.next)
          (marked : Marked store b mem m).
        rival_wins a b store mem m v now next marked ids names (absent _ _ a_new)
          (absent _ _ a_free) (absent _ _ b_new) in
    let unmarked_b = λ (key : Key) (f : Free key (field_of key b) mem).
      v.0 key (field_of key b) ∙ absent key (field_of key b) f in
    let (m, lost, now, next, marked) =
      attempt_loses store b mem at v.1 (unmarked_b by_github_id b_new)
        (shown-none by_username b.username store mem (absent _ _ b_free)
          (unmarked_b by_username b_free))
        (rival a)
        (λ m now next marked.
          let (mem', same, grown, _) = wins m now next marked in
          (
            grown_store store a m,
            ap (λ (x : Memory). x.store) same ∙ grown,
            nat_eq_gt m.next store.address (omega (arith, v.2, next)),
          )) in
    let (mem', same, grown, found) = wins m now next marked in
    (
      mem',
      second_turn b (rival a) mem (rival a m) lost ∙ meets_rival a b store m mem' same grown found,
      ap users_of grown ∙ ap (λ s. users_of s ++ a ∷ []) (sym at),
    )
