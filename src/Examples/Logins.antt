-- ===== src/Examples/Logins.antt =====
-- webrtc-server/pkg/handler: logins by GitHub and by Kioubit, after the login of `ann`.
use webrtc_chat.Prelude.{
  ℕ, String, ◌≡◌, refl, ◌↔◌, inl, inr, none, some, List, [], ◌∷◌, ◌++◌, Outcome, done, panic, ◌==◌,
  if◌then◌else◌,
}
use webrtc_chat.Map
use webrtc_chat.Map.{Map}
use webrtc_chat.Decimal.{pos, itoa}
use webrtc_chat.User.Manager.{load_or_create_new_user_by_github_id, do_add_user_by_github_id}
use webrtc_chat.Ws.Login.{log_in}
use webrtc_chat.Http.{Write, Request, fail}
use webrtc_chat.Auth.Nonces.{create_nonce_for}
use webrtc_chat.Auth.Retry.{Turn, Logins}
use webrtc_chat.Auth.Bound.{LogsOnly, github_login-LogsOnly}
use webrtc_chat.Auth.Verify.{Accepted, verify_auth_token_iff, kioubit_rejected}
use webrtc_chat.Auth.Github
use webrtc_chat.Auth.Github.{
  GithubOauthLoginHandler, Github, GithubProfileResponse, token, profile, check_request,
  invalid_nonce,
}
use webrtc_chat.Auth.Kioubit
use webrtc_chat.Auth.Kioubit.{
  KioubitLoginHandler, KioubitAuthCallbackParams, Formats, ecdsa_key, fields, new_callback_params,
  verify_auth_token,
}
use webrtc_chat.Examples.Users.{with_ann}

-- The GitHub account 77 of another person named `ann`.
abbrev octo : GithubProfileResponse
octo = record { login = "ann"; id = some (pos 77); avatar_url = ""; name = "Ann O." }

abbrev github : Github
github = record {
  exchange = λ endpoint code. token "t1";
  profile_of = λ t. profile octo;
  page_with_query = λ page values. some page;
}

abbrev github_handler : GithubOauthLoginHandler
github_handler = record {
  client_id = "c";
  redir_url = "https://chat.example/login/auth";
  login_page = "";
  scope = "";
  token_endpoint = "";
  login_success_redirect_url = "";
}

abbrev turns : ℕ → Turn
turns i = record { new_id = "u7"; schedule = []; suffix = i }

-- A login that session `s1` started from the page /chat.
abbrev logins : Logins
logins = record {
  nonces = create_nonce_for "n1" "s1" "/chat" Map.empty;
  sessions = Map.empty;
  users = with_ann;
  revoked = [];
}

abbrev callback : Request
callback = record {
  path = "/github/login/auth";
  session_id = some "s1";
  query = λ k. if k == "state" then "n1" else if k == "code" then "c1" else "";
}

abbrev arrived : Outcome (List Write × Logins) → List Write × Logins
arrived (done r) = r
arrived (panic fault) = ([], logins)

abbrev run : Outcome (List Write × Logins)
run = Github.handle_authorization_code github_handler github turns callback logins

run-done : run ≡ done (arrived run)
unfolding Github.handle_authorization_code check_request create_nonce_for
    load_or_create_new_user_by_github_id do_add_user_by_github_id Map.get Map.put Map.empty itoa
run-done = refl

github_login-LogsOnly_example : LogsOnly (some "s1") "n1" logins (arrived run).1
github_login-LogsOnly_example =
    github_login-LogsOnly github_handler github turns callback logins (arrived run).1
      (arrived run).0 run-done

run-sessions : (arrived run).1.sessions ≡ log_in logins.sessions "u7" "s1"
unfolding Github.handle_authorization_code check_request create_nonce_for
    load_or_create_new_user_by_github_id do_add_user_by_github_id Map.get Map.put Map.empty log_in
    itoa
run-sessions = refl

-- Formats in which every text is itself, signed by writing it twice.
abbrev params : KioubitAuthCallbackParams
params = record {
  asn = "4242420000";
  time = 1000;
  mnt = "  " ∷ "ANN-MNT" ∷ [];
  effective_mnt = "";
  domain = some "chat.example";
  user_token = some "n1";
}

abbrev formats : Formats String
formats = record {
  read_key = λ pem. ecdsa_key pem;
  decode_base64 = λ s. inr s;
  verify = λ key s sig. sig == "good";
  unmarshal = λ s. fields params;
}

abbrev kioubit_handler : KioubitLoginHandler
kioubit_handler = record {
  redir_url = "https://chat.example/login/auth";
  login_page = "";
  login_success_redirect_url = "";
  pubkey = some "pem";
}

abbrev signed_by : String → Request
signed_by signature = record {
  path = "/kioubit/login/auth";
  session_id = some "s1";
  query = λ k. if k == "params" then "p" else if k == "signature" then signature else "";
}

params-rejected :
    new_callback_params formats 1030 (some "pem") (signed_by "bad") ≡ done (inl "invalid signature")
unfolding new_callback_params
params-rejected = refl

no_empty_nonce : Map.get logins.nonces "" ≡ none
unfolding create_nonce_for Map.get Map.put Map.empty
no_empty_nonce = refl

kioubit_rejected_example :
    Kioubit.handle_authorization_code kioubit_handler formats 1030 turns (signed_by "bad") logins
    ≡ done (fail 400 "invalid signature" ++ invalid_nonce "", logins)
kioubit_rejected_example =
    kioubit_rejected kioubit_handler formats 1030 turns (signed_by "bad") logins "s1"
      "invalid signature" refl params-rejected no_empty_nonce

verify_auth_token_iff_example :
    (verify_auth_token formats 1030 "good" "p" "pem" ≡ done (inr params))
    ↔ Accepted formats 1030 "good" "p" "pem" params
verify_auth_token_iff_example = verify_auth_token_iff formats 1030 "good" "p" "pem" params
