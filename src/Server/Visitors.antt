-- ===== src/Server/Visitors.antt =====
-- webrtc-server/main.go with the middleware and the logins: who a visitor is to the server.
use webrtc_chat.Prelude.{
  ℕ, String, false, Option, none, some, [], ◌∷◌, ◌≡◌, refl, ◌∙◌, done, ◌==◌, if◌then◌else◌, eq_refl,
}
use webrtc_chat.Map
use webrtc_chat.Map.{Map, get-remove}
use webrtc_chat.Http.{status}
use webrtc_chat.Payloads.{AuthenticationType}
use webrtc_chat.User.{User}
use webrtc_chat.Ws.Login.{log_out, get_user_id_by_session_id, session_user, get_logged_in_as}
use webrtc_chat.Web.Cookie.{
  CookieSessionManager, SessionCookie, session_handler, get_session_id, create_session,
}
use webrtc_chat.Web.Token.{Jwt, user_id_from_jwt}
use webrtc_chat.Server.{
  Cli, get_origin_validator, Managers, HttpRequest, mux_handler, serve_logout, connect,
  log_out_request,
}

-- A user, if the upgrade is allowed.
abbrev pub admitted :
    Cli → HttpRequest → Option User × AuthenticationType → Option (Option User × AuthenticationType)
admitted cli r who = if get_origin_validator cli r.origin then some who else none

abbrev pub nobody : Option User × AuthenticationType
nobody = (none, AuthenticationType.none)

nobody_logged_in :
    (m : Managers) (session_id : String)
    → get_user_id_by_session_id m.logins session_id ≡ ""
    → get_logged_in_as none (some session_id) m.logins m.users ≡ done nobody
unfolding get_logged_in_as session_user
nobody_logged_in m session_id h = rw h refl

connect-nobody :
    (cli : Cli) (jwt : Jwt) (now : ℕ) (new_id : String) (r : HttpRequest) (m : Managers)
    {session_id : String} {sessions : CookieSessionManager} {set : Option SessionCookie}
    → user_id_from_jwt jwt m.secret now r.authorization ≡ none
    → session_handler m.sessions new_id r.cookie ≡ (session_id, sessions, set)
    → get_user_id_by_session_id m.logins session_id ≡ ""
    → connect cli jwt now new_id r m
      ≡ done (admitted cli r nobody, record m { sessions = sessions })
unfolding connect mux_handler
connect-nobody cli jwt now new_id r m {session_id} no_token ran out =
    rw (ran, no_token, nobody_logged_in m session_id out) refl

not_logged_in :
    (logins : Map String) (session_id : String)
    → Map.get logins session_id ≡ none
    → get_user_id_by_session_id logins session_id ≡ ""
unfolding get_user_id_by_session_id
not_logged_in logins session_id h = rw (get_user_id_by_session_id, h) refl

made_session :
    (s : CookieSessionManager) (new_id : String) (cookie : Option String)
    → get_session_id s cookie ≡ ""
    → let (made, s', set) = create_session s new_id in
      session_handler s new_id cookie ≡ (made, s', some set)
unfolding session_handler create_session
made_session s new_id cookie unknown = rw unknown refl

kept_session :
    (s : CookieSessionManager) (new_id v : String)
    → get_session_id s (some v) ≡ v
    → (v == "") ≡ false
    → session_handler s new_id (some v) ≡ (v, s, none)
unfolding session_handler
kept_session s new_id v known filled = rw (known, filled) refl

unknown_cookie :
    (s : CookieSessionManager) (cookie : Option String)
    → ((v : String) → cookie ≡ some v → Map.get s.session_store v ≡ none)
    → get_session_id s cookie ≡ ""
unfolding get_session_id
unknown_cookie s none unknown = refl
unknown_cookie s (some v) unknown = rw (unknown v refl) refl

-- A request without a valid token, whose cookie, if it has one, has a value that is not in the
-- server's store of sessions, connects as nobody, if its origin is allowed, whoever is logged in with
-- that value, as long as no one has logged in with the new session id.
pub stranger_is_nobody :
    (cli : Cli) (jwt : Jwt) (now : ℕ) (new_id : String) (r : HttpRequest) (m : Managers)
    → user_id_from_jwt jwt m.secret now r.authorization ≡ none
    → ((v : String) → r.cookie ≡ some v → Map.get m.sessions.session_store v ≡ none)
    → Map.get m.logins new_id ≡ none
    → (m' : Managers) × (connect cli jwt now new_id r m ≡ done (admitted cli r nobody, m'))
unfolding create_session
stranger_is_nobody cli jwt now new_id r m no_token unknown fresh = (
  _,
  connect-nobody cli jwt now new_id r m no_token
      (made_session m.sessions new_id r.cookie (unknown_cookie m.sessions r.cookie unknown))
      (not_logged_in m.logins new_id fresh),
)

-- A request for /logout with a cookie that the server made is answered with OK, and from then on a
-- request with that cookie and no valid token connects as nobody, if its origin is allowed, in the
-- same session; the other sessions keep who is logged in.
pub logged_out_is_nobody :
    (cli : Cli) (jwt : Jwt) (now later : ℕ) (new_id other_id v : String) (r r' : HttpRequest)
    (m : Managers)
    → get_session_id m.sessions (some v) ≡ v
    → (v == "") ≡ false
    → r.cookie ≡ some v
    → r'.cookie ≡ some v
    → user_id_from_jwt jwt m.secret later r'.authorization ≡ none
    → (m' : Managers) × (log_out_request jwt now new_id r m ≡ (status 200 ∷ [], m'))
      × (connect cli jwt later other_id r' m' ≡ done (admitted cli r' nobody, m'))
      × ((j : String)
          → (v == j) ≡ false
          → get_user_id_by_session_id m'.logins j ≡ get_user_id_by_session_id m.logins j)
unfolding log_out_request mux_handler serve_logout get_user_id_by_session_id log_out
logged_out_is_nobody cli jwt now later new_id other_id v r r' m known filled asks comes no_token =
    let m' = record m { logins = log_out m.logins v } in
    let gone : Map.get m'.logins v ≡ none = get-remove m.logins v v ∙ rw (eq_refl v) refl in
    let again : session_handler m.sessions other_id r'.cookie ≡ (v, m.sessions, none) =
      rw comes (kept_session m.sessions other_id v known filled) in
    (
      m',
      rw (asks, kept_session m.sessions new_id v known filled) refl,
      connect-nobody cli jwt later other_id r' m' no_token again (not_logged_in m'.logins v gone),
      λ j other.
          let same : Map.get m'.logins j ≡ Map.get m.logins j =
            get-remove m.logins v j ∙ rw other refl in
          rw (get_user_id_by_session_id, same) refl,
    )
