-- ===== src/Ws/Login.antt =====
-- webrtc-server/pkg/models/login/user_session.go and getLoggedInAs of
-- webrtc-server/pkg/handler/handle_ws.go: who sends the messages of a connection.
use webrtc_chat.Prelude.{
  String, ◌≡◌, refl, ◌∙◌, ap, false, Option, none, some, Outcome, done, ◌>>=◌, ◌==◌, eq_refl,
  if◌then◌else◌, arith,
}
use webrtc_chat.Map
use webrtc_chat.Map.{Map, get-put, get-remove}
use webrtc_chat.Payloads.{AuthenticationType}
use webrtc_chat.User.{User, Memory}
use webrtc_chat.User.Manager.{by_id, get_user}

-- MemoryUserSessionManager: the user ids by session id.
unfoldable pub log_in : Map String → String → String → Map String
log_in store user_id session_id = Map.put store session_id user_id

unfoldable pub log_out : Map String → String → Map String
log_out store session_id = Map.remove store session_id

unfoldable pub get_user_id_by_session_id : Map String → String → String
get_user_id_by_session_id store session_id = elim (Map.get store session_id) [
  | some user_id ↦ user_id
  | none ↦ ""
]

-- The end of getLoggedInAs, with the user id of the session. GetUserById of the memory manager
-- returns no error.
unfoldable pub session_user : Memory → String → Outcome (Option User × AuthenticationType)
session_user mem user_id =
    if user_id == ""
    then done (none, AuthenticationType.none)
    else get_user by_id user_id mem >>= λ user. done (user, AuthenticationType.session)

-- getLoggedInAs, on the user id that the token gave and the session id, if the context has them.
unfoldable pub get_logged_in_as :
    Option String → Option String → Map String → Memory → Outcome (Option User × AuthenticationType)
unfolding get_user_id_by_session_id session_user
get_logged_in_as (some user_id) session_id store mem =
    get_user by_id user_id mem >>= λ user. done (user, AuthenticationType.jwt)
get_logged_in_as none none store mem = done (none, AuthenticationType.none)
get_logged_in_as none (some session_id) store mem =
    session_user mem (get_user_id_by_session_id store session_id)

after_log_in :
    (store : Map String) (user_id session_id j : String)
    → get_user_id_by_session_id (log_in store user_id session_id) j
      ≡ (if session_id == j then user_id else get_user_id_by_session_id store j)
unfolding get_user_id_by_session_id log_in
after_log_in store user_id session_id j = ground (arith, get-put store session_id j user_id)

after_log_out :
    (store : Map String) (user_id session_id j : String)
    → get_user_id_by_session_id (log_out (log_in store user_id session_id) session_id) j
      ≡ (if session_id == j then "" else get_user_id_by_session_id store j)
unfolding get_user_id_by_session_id log_in log_out
after_log_out store user_id session_id j = ground (
  arith,
  get-remove (Map.put store session_id user_id) session_id j,
  get-put store session_id j user_id,
)

-- A LogIn of a user id that is not empty and then a LogOut: between them a request of the session
-- without a token is the user's, by the session; after them it is nobody's; and the other sessions
-- keep their user ids throughout.
pub log_in-log_out :
    (store : Map String) (user_id session_id : String) (mem : Memory)
    → (user_id == "") ≡ false
    → let logged_in = log_in store user_id session_id in
      let logged_out = log_out logged_in session_id in
      (get_logged_in_as none (some session_id) logged_in mem
        ≡ (get_user by_id user_id mem >>= λ user. done (user, AuthenticationType.session)))
      × (get_logged_in_as none (some session_id) logged_out mem
          ≡ done (none, AuthenticationType.none))
      × ((j : String)
          → get_user_id_by_session_id logged_in j
            ≡ (if session_id == j then user_id else get_user_id_by_session_id store j))
      × ((j : String)
          → get_user_id_by_session_id logged_out j
            ≡ (if session_id == j then "" else get_user_id_by_session_id store j))
unfolding get_logged_in_as session_user
log_in-log_out store user_id session_id mem filled =
    let after_in = after_log_in store user_id session_id in
    let after_out = after_log_out store user_id session_id in
    let own : get_user_id_by_session_id (log_in store user_id session_id) session_id ≡ user_id =
      after_in session_id ∙ rw (eq_refl session_id) refl in
    let gone : get_user_id_by_session_id (log_out (log_in store user_id session_id) session_id)
          session_id
        ≡ "" =
      after_out session_id ∙ rw (eq_refl session_id) refl in
    (
      ap (session_user mem) own ∙ rw (filled, session_user) refl,
      ap (session_user mem) gone,
      after_in,
      after_out,
    )
