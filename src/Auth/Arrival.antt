-- ===== src/Auth/Arrival.antt =====
-- webrtc-server/pkg/handler: how a login with a good token ends, at GitHub and at Kioubit.
use webrtc_chat.Prelude.{ℕ, String, ◌≡◌, some, List, [], ◌∷◌, ◌++◌, ◌⊎◌, Outcome, done, get_elem?}
use webrtc_chat.User.{User, Memory}
use webrtc_chat.User.Manager.{Key, field_of}
use webrtc_chat.User.Store.{IsValid}
use webrtc_chat.User.Lookup.{published}
use webrtc_chat.Ws.Login.{log_in}
use webrtc_chat.Http.{Write, fail}
use webrtc_chat.Auth.Retry.{Logins}
use webrtc_chat.Auth.Github
use webrtc_chat.Auth.Github.{Github}
use webrtc_chat.Auth.Kioubit

abbrev pub too_many : List Write
too_many = fail 400 "Failed to create user with unique username after maximum retries"

-- The session is the user's, who is published and has the field that the login is about; or no name
-- was free, and nobody is logged in.
pub data LoginEnd (key : Key) (k : String) (names : Type 0) (session_id : String)
    (answer : List Write) (s : Logins) (r : Outcome (List Write × Logins)) : Type 0 where
  logged_in :
      (mem : Memory) (n : ℕ) (u : User)
      → IsValid mem
      → get_elem? (published mem) n ≡ some u
      → field_of key u ≡ k
      → (published mem ≡ published s.users) ⊎ (published mem ≡ published s.users ++ u ∷ [])
      → r ≡ done (answer, record s { users = mem; sessions = log_in s.sessions u.id session_id })
      → LoginEnd key k names session_id answer s r
  no_name :
      (mem : Memory)
      → IsValid mem
      → published mem ≡ published s.users
      → names
      → r ≡ done (too_many, record s { users = mem })
      → LoginEnd key k names session_id answer s r
