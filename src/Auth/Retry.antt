-- ===== src/Auth/Retry.antt =====
-- The end of handleAuthorizationCode, the same in handle_github_login.go and in
-- handle_kioutbit_login.go: find or make the user, with a new name while the name is taken, and log
-- its session in. `Turn` has what an attempt meets: the id that uuid would give, the other goroutines
-- that run in between, and the number that rand.Intn(0x10000) returns after it.
use Prim.Native.String.{◌++◌ as str_append}
use webrtc_chat.Prelude.{
  ℕ, zero, suc, ◌+◌, String, Bool, List, [], ◌∷◌, Outcome, done, ◌>>=◌, ◌==◌, if◌then◌else◌,
}
use webrtc_chat.Map.{Map}
use webrtc_chat.Errors.{username_duplicated, ok, err}
use webrtc_chat.Decimal.{hex_04}
use webrtc_chat.User.{User, Memory}
use webrtc_chat.User.Manager.{Attempt, returned, again}
use webrtc_chat.Ws.Login.{log_in}
use webrtc_chat.Http.{Write, status, redirect, fail}
use webrtc_chat.Auth.Nonces.{NonceState}

pub record Turn : Type 0 where
  pub new_id : String
  pub schedule : List (Memory → Memory)
  pub suffix : ℕ

-- How the loop ends; `unfinished` would be a manager whose own loop still runs.
pub data Loaded : Type 0 where
  loaded : User → Loaded
  store_failed : Loaded
  given_up : Loaded
  unfinished : Loaded

abbrev pub Load : Type 0
Load = Turn → User → Memory → Outcome (Attempt (User × Bool) × Memory)

-- What the loop does with the answer to an attempt.
unfoldable pub after_attempt :
    (Memory → Outcome (Loaded × Memory))
    → Attempt (User × Bool) × Memory
    → Outcome (Loaded × Memory)
after_attempt next (returned (ok (u, created)), mem) = done (loaded u, mem)
after_attempt next (returned (err username_duplicated), mem) = next mem
after_attempt next (returned (err e), mem) = done (store_failed, mem)
after_attempt next (again, mem) = done (unfinished, mem)

-- The loop, with the rounds that are left and the number of the next.
unfoldable pub retry :
    Load → (ℕ → Turn) → String → ℕ → ℕ → User → Memory → Outcome (Loaded × Memory)
unfolding after_attempt hex_04
retry load turns original zero i user mem = done (given_up, mem)
retry load turns original (suc rounds) i user mem =
    load (turns i) user mem
    >>= after_attempt (
        retry load turns original rounds (i + 1) (record user {
          username = str_append original (str_append "-" (hex_04 (turns i).suffix));
        }))

abbrev pub max_retries : ℕ
max_retries = 5

-- The state that the logins share: the nonces of a handler, the session store, the users, and the
-- tokens that were given back to GitHub.
pub record Logins : Type 0 where
  pub nonces : Map NonceState
  pub sessions : Map String
  pub users : Memory
  pub revoked : List String

-- Where a login ends. url.Parse gives no URL together with an error, so the test of the source that
-- asks for both never holds, and the last answer is 200.
unfoldable pub landing : String → String → List Write
landing initial_page success_url =
    if initial_page == ""
    then if success_url == "" then status 200 ∷ [] else redirect success_url ∷ []
    else redirect initial_page ∷ []

-- From the end of the loop on. LogIn of the memory manager returns no error.
unfoldable pub finish : String → String → String → Logins → Loaded × Memory → List Write × Logins
unfolding landing log_in
finish session_id initial_page success_url s (loaded u, mem) = (
  landing initial_page success_url,
  record s { users = mem; sessions = log_in s.sessions u.id session_id },
)
finish session_id initial_page success_url s (store_failed, mem) =
    (fail 500 "Failed to load user from store", record s { users = mem })
finish session_id initial_page success_url s (given_up, mem) = (
  fail 400 "Failed to create user with unique username after maximum retries",
  record s { users = mem },
)
finish session_id initial_page success_url s (unfinished, mem) = ([], record s { users = mem })
