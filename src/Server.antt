-- ===== src/Server.antt =====
-- webrtc-server/main.go: the handlers and what they share, with webrtc-server/pkg/handler's
-- handle_logout.go, handle_conns.go and handle_cors.go. The environment and the files are parameters.
pub mod Visitors
pub mod Logins
use webrtc_chat.Prelude.{
  ℕ, String, Bool, true, false, Option, none, some, List, [], ◌∷◌, ◌++◌, ◌⊎◌, inl, inr, Outcome,
  done, ◌>>=◌, not, ◌==◌, ◌||◌, ◌&&◌, if◌then◌else◌,
}
use webrtc_chat.Map.{Map}
use webrtc_chat.Http.{Write, status, content_type, bytes, fail}
use webrtc_chat.Payloads.{AuthenticationType}
use webrtc_chat.User.{User, Memory}
use webrtc_chat.Ws.Login.{log_out, get_logged_in_as}
use webrtc_chat.Web.Cookie.{CookieSessionManager, SessionCookie, session_handler}
use webrtc_chat.Web.Token.{Jwt, user_id_from_jwt}

pub record Cli : Type 0 where
  pub ws_path : String
  pub allowed_origins : List String
  pub default_cors_allowed : Bool
  pub inject_allow_all_cors_headers : Bool
  pub github_login_redirect_url : String
  pub kioubit_login_pubkey : String

-- slices.Contains
unfoldable pub contains : List String → String → Bool
contains [] s = false
contains (x ∷ xs) s = x == s || contains xs s

-- getOriginValidator, with the Origin header, or an empty text.
unfoldable pub get_origin_validator : Cli → String → Bool
unfolding contains
get_origin_validator cli origin =
    if origin == "" then cli.default_cors_allowed else contains cli.allowed_origins origin

-- The handlers of the mux.
pub data Endpoint : Type 0 where
  websocket conns counter logout profile_avatar profile_status profile : Endpoint
  -- with the public key, and with the id and the secret of the client
  kioubit_login : String → Endpoint
  github_login : String → String → Endpoint

abbrev github_routes : Cli → (String → String) → List (String × Endpoint)
github_routes cli getenv =
    if getenv "GH_LOGIN_CLIENT_ID" == ""
    then []
    else if getenv "GH_LOGIN_CLIENT_SECRET" == ""
    then []
    else if cli.github_login_redirect_url == ""
    then []
    else (
      "/github/login/",
      github_login (getenv "GH_LOGIN_CLIENT_ID") (getenv "GH_LOGIN_CLIENT_SECRET"),
    )
      ∷ []

-- The key's file, if it is named: log.Fatal if it cannot be read.
abbrev kioubit_routes : Cli → (String → Option String) → List (String × Endpoint) ⊎ String
kioubit_routes cli read_file =
    if cli.kioubit_login_pubkey == "" then inl [] else elim (read_file cli.kioubit_login_pubkey) [
      | none ↦ inr cli.kioubit_login_pubkey
      | some pubkey ↦ inl (("/kioubit/login/", kioubit_login pubkey) ∷ [])
    ]

abbrev routes_with : Cli → (String → String) → List (String × Endpoint) → List (String × Endpoint)
routes_with cli getenv kioubit =
    (cli.ws_path, websocket)
    ∷ ("/conns", conns)
    ∷ ("/counter", counter)
    ∷ (kioubit
        ++ ("/logout", logout)
          ∷ (github_routes cli getenv
              ++ ("/profile/avatar", profile_avatar)
                ∷ ("/profile/status", profile_status)
                ∷ ("/profile", profile)
                ∷ []))

-- The routes of the mux, in the order of their registration, or the path that main fails on.
unfoldable pub routes :
    Cli → (String → String) → (String → Option String) → List (String × Endpoint) ⊎ String
routes cli getenv read_file = elim (kioubit_routes cli read_file) [
  | inl kioubit ↦ inl (routes_with cli getenv kioubit)
  | inr path ↦ inr path
]

-- The managers that the handlers share: the sessions, the logins by session id, and the users.
pub record Managers : Type 0 where
  pub sessions : CookieSessionManager
  pub logins : Map String
  pub secret : String
  pub users : Memory

-- The headers of a request, each an empty text if it is not there, and the session's cookie.
pub record HttpRequest : Type 0 where
  pub origin : String
  pub authorization : String
  pub cookie : Option String

-- What the middleware puts into the context.
pub record Context : Type 0 where
  pub session_id : String
  pub user_id_from_jwt : Option String

-- The handlers around the mux: WithSessionHandler and then WithJWTHandler.
unfoldable pub mux_handler :
    Jwt → ℕ → String → HttpRequest → Managers → Context × Managers × Option SessionCookie
unfolding session_handler user_id_from_jwt
mux_handler jwt now new_id r m =
    let (session_id, sessions, set) = session_handler m.sessions new_id r.cookie in
    (
      record {
        session_id = session_id;
        user_id_from_jwt = user_id_from_jwt jwt m.secret now r.authorization;
      },
      record m { sessions = sessions },
      set,
    )

-- The headers of WithCORSAllowAny.
unfoldable pub cors_headers : Cli → List (String × String)
cors_headers cli =
    if cli.inject_allow_all_cors_headers
    then ("Access-Control-Allow-Origin", "*")
      ∷ ("Access-Control-Allow-Methods", "GET, POST, PUT, DELETE, OPTIONS")
      ∷ ("Access-Control-Allow-Headers", "Content-Type, Authorization")
      ∷ []
    else []

-- LogoutHandler, on the session id of the context; LogOut of the memory manager returns no error.
unfoldable pub serve_logout : Option String → Map String → List Write × Map String
unfolding log_out
serve_logout none logins = (fail 400 "No valid session id is found", logins)
serve_logout (some session_id) logins = (status 200 ∷ [], log_out logins session_id)

-- ConnsHandler, over the encoded Dump.
unfoldable pub serve_conns : String → List Write
serve_conns dump = status 200 ∷ content_type "application/json" ∷ bytes dump ∷ []

-- A request for the WebSocket: who its messages come from, if the upgrade is allowed.
unfoldable pub connect :
    Cli
    → Jwt
    → ℕ
    → String
    → HttpRequest
    → Managers
    → Outcome (Option (Option User × AuthenticationType) × Managers)
unfolding mux_handler get_origin_validator get_logged_in_as
connect cli jwt now new_id r m =
    let (ctx, m', set) = mux_handler jwt now new_id r m in
    get_logged_in_as ctx.user_id_from_jwt (some ctx.session_id) m'.logins m'.users >>= λ who.
    done (if get_origin_validator cli r.origin then some who else none, m')

-- A request for /logout.
unfoldable pub log_out_request : Jwt → ℕ → String → HttpRequest → Managers → List Write × Managers
unfolding mux_handler serve_logout
log_out_request jwt now new_id r m =
    let (ctx, m', set) = mux_handler jwt now new_id r m in
    let (writes, logins) = serve_logout (some ctx.session_id) m'.logins in
    (writes, record m' { logins = logins })
