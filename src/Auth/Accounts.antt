-- ===== src/Auth/Accounts.antt =====
-- webrtc-server/pkg/handler: which account the loop of a login ends with.
use Prim.Native.String.{◌++◌ as str_append}
use webrtc_chat.Prelude.{
  ℕ, zero, suc, ◌+◌, String, ◌≡◌, refl, ◌∙◌, some, List, [], ◌∷◌, ◌++◌, Outcome, done, get_elem?,
}
use webrtc_chat.Decimal.{hex_04}
use webrtc_chat.User.{User, Memory}
use webrtc_chat.User.Manager.{Key, field_of}
use webrtc_chat.User.Store.{IsValid}
use webrtc_chat.User.Lookup.{published}
use webrtc_chat.User.Requests.{Added, existing, duplicated, created}
use webrtc_chat.Auth.Retry.{Turn, Load, Loaded, loaded, given_up, after_attempt, retry}

-- What an attempt with no other goroutine does, up to the id that it gives the user.
abbrev pub Sound : Key → String → Load → Type 0
Sound key k load =
    (t : Turn) (user : User) (mem : Memory)
    → t.schedule ≡ []
    → IsValid mem
    → field_of key user ≡ k
    → (w : User) × (field_of key w ≡ k)
      × (w.username ≡ user.username)
      × Added key w mem (load t user mem)

abbrev next_name : (ℕ → Turn) → String → ℕ → String
next_name turns original i = str_append original (str_append "-" (hex_04 (turns i).suffix))

-- The names of the rounds, all taken.
abbrev pub NamesTaken : List User → (ℕ → Turn) → String → ℕ → ℕ → String → Type 0
NamesTaken users turns original zero i name = Unit {0}
NamesTaken users turns original (suc rounds) i name =
    ((n : ℕ) × (u : User) × (get_elem? users n ≡ some u) × (u.username ≡ name))
    × NamesTaken users turns original rounds (i + 1) (next_name turns original i)

-- The three ends of the loop, from `users`.
pub data Retried (key : Key) (k : String) (users : List User) (names : Type 0)
    (r : Outcome (Loaded × Memory)) : Type 0 where
  found :
      (mem : Memory) (n : ℕ) (u : User)
      → IsValid mem
      → published mem ≡ users
      → get_elem? users n ≡ some u
      → field_of key u ≡ k
      → r ≡ done (loaded u, mem)
      → Retried key k users names r
  made :
      (mem : Memory) (u : User)
      → IsValid mem
      → published mem ≡ users ++ u ∷ []
      → field_of key u ≡ k
      → r ≡ done (loaded u, mem)
      → Retried key k users names r
  gave_up :
      (mem : Memory)
      → IsValid mem
      → published mem ≡ users
      → names
      → r ≡ done (given_up, mem)
      → Retried key k users names r

Retried-map :
    {key : Key} {k : String} {users : List User} {A B : Type 0} {r : Outcome (Loaded × Memory)}
    → (A → B)
    → Retried key k users A r
    → Retried key k users B r
Retried-map f (found mem n u v e at same ran) = found mem n u v e at same ran
Retried-map f (made mem u v e same ran) = made mem u v e same ran
Retried-map f (gave_up mem v e names ran) = gave_up mem v e (f names) ran

module _ (key : Key) (k original : String) (load : Load) (turns : ℕ → Turn)
    (sound : Sound key k load) (calm : (i : ℕ) → (turns i).schedule ≡ [])
    (kept : (user : User) (name : String)
      → field_of key (record user { username = name }) ≡ field_of key user) where
  pub retry-Retried :
      (rounds i : ℕ) (user : User) (users : List User) (mem : Memory)
      → IsValid mem
      → published mem ≡ users
      → field_of key user ≡ k
      → Retried key k users
          (NamesTaken users turns original rounds i user.username)
          (retry load turns original rounds i user mem)
  unfolding retry after_attempt
  retry-Retried zero i user users mem v e f = gave_up mem v e tt refl
  retry-Retried (suc rounds) i user users mem v e f =
      let (w, same, named, added) = sound (turns i) user mem (calm i) v f in
      elim added [
        | existing n u at fu ran ↦ found mem n u v e (rw (← e) at) (fu ∙ same) (rw ran refl)
        | created mem' free name_free (v', grown) ran ↦
            made mem' w v' (rw (← e) grown) same (rw ran refl)
        | duplicated mem' free (n, u, at, taken) (v', unchanged) ran ↦ rw ran (
            Retried-map (λ names. ((n, u, rw (← e) at, taken ∙ named), names))
              (retry-Retried rounds (i + 1) (record user { username = next_name turns original i })
                users mem' v' (unchanged ∙ e) (kept user (next_name turns original i) ∙ f)))
      ]
