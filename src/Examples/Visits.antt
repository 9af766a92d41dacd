-- ===== src/Examples/Visits.antt =====
-- webrtc-server/main.go: visitors with and without a session.
use mathlib.Core.Path.{subst}
use webrtc_chat.Prelude.{
  String, true, false, none, some, List, [], ◌∷◌, ◌≡◌, refl, inl, ◌==◌, if◌then◌else◌, done,
}
use webrtc_chat.Map
use webrtc_chat.Http.{status}
use webrtc_chat.User.{init}
use webrtc_chat.Ws.Login.{get_user_id_by_session_id}
use webrtc_chat.Web.Token.{Jwt, user_id_from_jwt}
use webrtc_chat.Web.Cookie.{get_session_id}
use webrtc_chat.Server.{
  Cli, Endpoint, Managers, HttpRequest, connect, log_out_request, routes, websocket, conns, counter,
  logout, profile_avatar, profile_status, profile,
}
use webrtc_chat.Server.Visitors.{admitted, nobody, stranger_is_nobody, logged_out_is_nobody}

abbrev cli : Cli
cli = record {
  ws_path = "/ws";
  allowed_origins = "http://localhost:3000" ∷ [];
  default_cors_allowed = true;
  inject_allow_all_cors_headers = false;
  github_login_redirect_url = "http://localhost:3000/api/github/login/auth";
  kioubit_login_pubkey = "";
}

abbrev no_tokens : Jwt
no_tokens = record {
  signed_string = λ secret claims. none;
  parse_with_claims = λ secret now token. none;
}

-- The session "s1" is Alice's, and so is "s2", which the server has forgotten.
abbrev managers : Managers
managers = record {
  sessions = record {
    session_store = Map.put Map.empty "s1" tt;
    cookie_domain = "";
    cookie_same_site = "";
    cookie_secure = "";
  };
  logins = Map.put (Map.put Map.empty "s1" "alice") "s2" "alice";
  secret = "key";
  users = init;
}

abbrev visit : String → HttpRequest
visit cookie = record { origin = "http://localhost:3000"; authorization = ""; cookie = some cookie }

forgotten :
    (v : String) → (visit "s2").cookie ≡ some v → Map.get managers.sessions.session_store v ≡ none
unfolding Map.get Map.put Map.empty
forgotten v e =
    let same : "s2" ≡ v = cc e in
    subst (λ w. Map.get managers.sessions.session_store w ≡ none) same refl

stranger_is_nobody_example :
    (m' : Managers) × (connect cli no_tokens 5 "s3" (visit "s2") managers
      ≡ done (admitted cli (visit "s2") nobody, m'))
unfolding Map.get Map.put Map.empty user_id_from_jwt
stranger_is_nobody_example =
    stranger_is_nobody cli no_tokens 5 "s3" (visit "s2") managers refl forgotten refl

logged_out_is_nobody_example :
    (m' : Managers) × (log_out_request no_tokens 5 "s3" (visit "s1") managers
      ≡ (status 200 ∷ [], m'))
    × (connect cli no_tokens 6 "s4" (visit "s1") m' ≡ done (admitted cli (visit "s1") nobody, m'))
    × ((j : String)
        → ("s1" == j) ≡ false
        → get_user_id_by_session_id m'.logins j ≡ get_user_id_by_session_id managers.logins j)
unfolding get_session_id Map.get Map.put Map.empty user_id_from_jwt
logged_out_is_nobody_example =
    logged_out_is_nobody cli no_tokens 5 6 "s3" "s4" "s1" (visit "s1") (visit "s1") managers refl
      refl refl refl refl

abbrev environment : String → String
environment name = if name == "GH_LOGIN_CLIENT_ID" then "id" else ""

-- Without the secret of the client there is no login with GitHub.
abbrev registered : List (String × Endpoint)
registered =
    ("/ws", websocket)
    ∷ ("/conns", conns)
    ∷ ("/counter", counter)
    ∷ ("/logout", logout)
    ∷ ("/profile/avatar", profile_avatar)
    ∷ ("/profile/status", profile_status)
    ∷ ("/profile", profile)
    ∷ []

registered-routes : routes cli environment (λ path. none) ≡ inl registered
unfolding routes
registered-routes = refl
