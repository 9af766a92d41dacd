-- ===== src/User/Requests.antt =====
-- webrtc-server/pkg/models/user: the manager's methods when no other goroutine runs between their
-- Load and their CompareAndSwap.
use webrtc_chat.Prelude.{
  ℕ, ◌-◌, String, ◌≡◌, refl, sym, ap, ◌⊎◌, Bool, true, false, Option, none, some, [], ◌∷◌, ◌++◌,
  arith, Outcome, done, ◌==◌, eq_iff, get_elem?, inl, inr, Option-cases,
}
use mathlib.Core.Path.{subst}
use webrtc_chat.Errors.{username_duplicated, ok, err}
use webrtc_chat.User.{
  User, UserCreationPayload, InMemoryUserStore, Memory, add_user, compare_and_swap, same_store,
}
use webrtc_chat.User.Manager.{
  Key, by_github_id, by_username, by_dn42_asn, field_of, Attempt, returned, install, attempt_add,
  do_add_user_by_github_id, do_add_user_by_dn42_asn, user_of_payload, create_user,
}
use webrtc_chat.User.Index.{last_from, last_from_sound, last_from-none}
use webrtc_chat.User.Store.{IsValid, ValidStore, users_of, add_user-taken, add_user-fresh}
use webrtc_chat.User.Lookup.{published, hit-eq-last_from, look}

same_store_refl : (s : Option InMemoryUserStore) → same_store s s ≡ true
same_store_refl none = refl
same_store_refl (some s) = ground arith

-- The end of a request that added nothing, and of one that appended a user.
abbrev pub Unchanged : Memory → Memory → Type 0
Unchanged mem mem' = IsValid mem' × (published mem' ≡ published mem)

abbrev pub Appended : User → Memory → Memory → Type 0
Appended user mem mem' = IsValid mem' × (published mem' ≡ published mem ++ user ∷ [])

abbrev pub Taken : Key → String → Memory → Type 0
Taken key k mem =
    (n : ℕ) × (u : User) × (get_elem? (published mem) n ≡ some u) × (field_of key u ≡ k)

abbrev pub Free : Key → String → Memory → Type 0
Free key k mem =
    (n : ℕ) (u : User) → get_elem? (published mem) n ≡ some u → (field_of key u == k) ≡ false

-- AddUser and an undisturbed CompareAndSwap, on both branches.
install_undisturbed :
    {A : Type 0} (user : User) (value : A) (mem : Memory)
    → IsValid mem
    → ((mem' : Memory) × (install mem.store value (λ m. m) (add_user mem.store user mem)
          ≡ (returned (err username_duplicated), mem'))
        × Unchanged mem mem'
        × Taken by_username user.username mem)
      ⊎ ((mem' : Memory) × (install mem.store value (λ m. m) (add_user mem.store user mem)
            ≡ (returned (ok value), mem'))
          × Appended user mem mem'
          × Free by_username user.username mem)
unfolding install compare_and_swap
install_undisturbed user value mem v =
    elim (Option-cases (last_from by_username user.username 0 (published mem))) [
      | inl free ↦
          let (new_store, m, ran, grown, _, kept, valid) =
            add_user-fresh mem.store mem user v free in
          inr (
            record m { store = some new_store },
            rw (ran, kept, same_store_refl mem.store),
            (valid, grown),
            λ n u at. last_from-none by_username user.username 0 n (published mem) u free at,
          )
      | inr (i, taken) ↦
          let (m, ran, kept, valid) = add_user-taken mem.store mem user i v taken in
          let (le, (u, at, same)) =
            last_from_sound by_username user.username 0 i (published mem) taken in
          inl (
            m,
            rw ran,
            (subst (λ s. ValidStore s m) (sym kept) valid, ap users_of kept),
            (i - 0, u, at, same),
          )
    ]

not_both : (key : Key) (k : String) (mem : Memory) → Free key k mem → Taken key k mem → ⊥
not_both key k mem free (n, u, at, same) = ground (arith, free n u at, eq_iff (field_of key u) k)

pub Free-last_from :
    (key : Key) (k : String) (mem : Memory)
    → Free key k mem
    → last_from key k 0 (published mem) ≡ none
Free-last_from key k mem free = elim (Option-cases (last_from key k 0 (published mem))) [
  | inl e ↦ e
  | inr (i, e) ↦
      let (_, (u, at, same)) = last_from_sound key k 0 i (published mem) e in
      absurd (not_both key k mem free (i - 0, u, at, same))
]

-- The ways in which a request to load or create a user ends, with what it does to the memory.
pub data Added (key : Key) (user : User) (mem : Memory)
    (r : Outcome (Attempt (User × Bool) × Memory)) : Type 0 where
  existing :
      (n : ℕ) (u : User)
      → get_elem? (published mem) n ≡ some u
      → field_of key u ≡ field_of key user
      → r ≡ done (returned (ok (u, false)), mem)
      → Added key user mem r
  duplicated :
      (mem' : Memory)
      → Free key (field_of key user) mem
      → Taken by_username user.username mem
      → Unchanged mem mem'
      → r ≡ done (returned (err username_duplicated), mem')
      → Added key user mem r
  created :
      (mem' : Memory)
      → Free key (field_of key user) mem
      → Free by_username user.username mem
      → Appended user mem mem'
      → r ≡ done (returned (ok (user, true)), mem')
      → Added key user mem r

attempt_add-Added :
    (key : Key) (user : User) (mem : Memory)
    → IsValid mem
    → Added key user mem (attempt_add key user (λ m. m) mem)
unfolding attempt_add
attempt_add-Added key user mem v = elim (look key (field_of key user) mem v) [
  | inr (i, u, r, at, same) ↦ existing i u at same (rw r)
  | inl (r, none_has) ↦
      let free : Free key (field_of key user) mem =
        λ n u at. last_from-none key (field_of key user) 0 n (published mem) u none_has at in
      elim (install_undisturbed {A = User × Bool} user (user, true) mem v) [
        | inl (mem', ran, same, taken) ↦ duplicated mem' free taken same (rw r (ap done ran))
        | inr (mem', ran, grown, name_free) ↦ created mem' free name_free grown (rw r (ap done ran))
      ]
]

-- In a well-formed memory an undisturbed doAddUserByGithubId returns: the published user with that
-- GitHub id, or else ErrUsernameDuplicated if the username is taken, and then the users are as
-- before, or else the new user, and then it is appended. The memory stays well formed.
pub do_add_user_by_github_id-Added :
    (user : User) (mem : Memory)
    → IsValid mem
    → Added by_github_id user mem (do_add_user_by_github_id user [] mem)
unfolding do_add_user_by_github_id
do_add_user_by_github_id-Added user mem v = attempt_add-Added by_github_id user mem v

-- The same for doAddUserByDN42ASN and the AS number.
pub do_add_user_by_dn42_asn-Added :
    (user : User) (mem : Memory)
    → IsValid mem
    → Added by_dn42_asn user mem (do_add_user_by_dn42_asn user [] mem)
unfolding do_add_user_by_dn42_asn
do_add_user_by_dn42_asn-Added user mem v = attempt_add-Added by_dn42_asn user mem v

-- An undisturbed CreateUser in a well-formed memory returns ErrUsernameDuplicated exactly when a
-- published user has the username, and changes nothing then; otherwise it returns the new user,
-- which is appended, and the memory stays well formed.
pub create_user_lem :
    (new_id : String) (payload : UserCreationPayload) (is_bot : Bool) (mem : Memory)
    → IsValid mem
    → ((create_user new_id payload is_bot [] mem ≡ done (returned (err username_duplicated), mem))
        × Taken by_username payload.username mem)
      ⊎ ((mem' : Memory) × (create_user new_id payload is_bot [] mem
            ≡ done (returned (ok (user_of_payload new_id payload is_bot)), mem'))
          × Free by_username payload.username mem
          × Appended (user_of_payload new_id payload is_bot) mem mem')
unfolding create_user
create_user_lem new_id payload is_bot mem v =
    let user = user_of_payload new_id payload is_bot in
    let looked = hit-eq-last_from by_username user.username mem.store mem v in
    elim (Option-cases (last_from by_username user.username 0 (published mem))) [
      | inr (i, e) ↦
          let (_, (u, at, same)) =
            last_from_sound by_username user.username 0 i (published mem) e in
          inl (rw (looked, e), (i - 0, u, at, same))
      | inl e ↦
          let free : Free by_username user.username mem =
            λ n u at. last_from-none by_username user.username 0 n (published mem) u e at in
          elim (install_undisturbed {A = User} user user mem v) [
            | inl (mem', ran, same, taken) ↦
                absurd (not_both by_username user.username mem free taken)
            | inr (mem', ran, grown, _) ↦ inr (mem', rw (looked, e) (ap done ran), free, grown)
          ]
    ]
