-- ===== src/Auth/Github.antt =====
-- webrtc-server/pkg/handler/handle_github_login.go. What GitHub answers is a parameter, and so is
-- what net/url makes of a page and of query values.
use Prim.Native.String.{◌++◌ as str_append}
use webrtc_chat.Prelude.{
  ℕ, String, false, Option, none, some, List, [], ◌∷◌, ◌++◌, Outcome, done, ◌>>=◌ as after, not,
  ◌==◌, if◌then◌else◌,
}
use webrtc_chat.Decimal.{ℤ, itoa}
use webrtc_chat.User.{User}
use webrtc_chat.User.Manager.{load_or_create_new_user_by_github_id}
use webrtc_chat.Text.{has_suffix}
use webrtc_chat.Http.{
  Write, redirect, error_body, fail, Checked, pass, refuse, ◌>>=◌, ◌>>◌, guard, or_refuse, Request,
  not_found,
}
use webrtc_chat.Auth.Nonces.{is_bound, create_nonce_for, get_initial_page_by_nonce}
use webrtc_chat.Auth.Retry.{Turn, Load, retry, max_retries, Logins, finish}

pub record GithubOauthLoginHandler : Type 0 where
  pub client_id : String
  pub redir_url : String
  pub login_page : String
  pub scope : String
  pub token_endpoint : String
  pub login_success_redirect_url : String

pub record GithubProfileResponse : Type 0 where
  pub login : String
  pub id : Option ℤ
  pub avatar_url : String
  pub name : String

-- How the exchange of a code for a token ends.
pub data Exchange : Type 0 where
  bad_endpoint no_request undecodable : Exchange
  unreachable : String → Exchange
  token : String → Exchange

-- What GetGithubProfileByToken returns: an error's text, or a profile.
pub data ProfileAnswer : Type 0 where
  no_profile : String → ProfileAnswer
  profile : GithubProfileResponse → ProfileAnswer

pub record Github : Type 0 where
  -- the token endpoint, and the code
  pub exchange : String → String → Exchange
  pub profile_of : String → ProfileAnswer
  -- url.Parse of a page, with the encoded query set: `none` for an error
  pub page_with_query : String → List (String × String) → Option String

abbrev or_default : String → String → String
or_default s default = if s == "" then default else s

unfoldable pub get_github_login_page : GithubOauthLoginHandler → String
get_github_login_page h = or_default h.login_page "https://github.com/login/oauth/authorize"

unfoldable pub get_github_token_endpoint : GithubOauthLoginHandler → String
get_github_token_endpoint h =
    or_default h.token_endpoint "https://github.com/login/oauth/access_token"

unfoldable pub get_github_oauth_scope : GithubOauthLoginHandler → String
get_github_oauth_scope h = or_default h.scope "read:user"

-- "" stands for an error, as in the source.
unfoldable pub get_github_oauth_redirect_url : GithubOauthLoginHandler → Github → String → String
unfolding get_github_login_page get_github_oauth_scope
get_github_oauth_redirect_url h github nonce =
    elim (github.page_with_query (get_github_login_page h) (
      ("client_id", h.client_id)
      ∷ ("redirect_uri", h.redir_url)
      ∷ ("scope", get_github_oauth_scope h)
      ∷ ("state", nonce)
      ∷ [])) [ none ↦ "" | some url ↦ url ]

abbrev pub redirect_to : String → List Write
redirect_to url =
    if url == ""
    then fail 500 "Failed to determine redir url (internal error)"
    else redirect url ∷ []

-- `nonce` is the text that uuid.NewString returns.
unfoldable pub handle_start :
    GithubOauthLoginHandler → Github → String → Request → Logins → List Write × Logins
unfolding get_github_oauth_redirect_url
handle_start h github nonce r s = elim r.session_id [
  | none ↦ (error_body "No session id is found" ∷ [], s)
  | some session_id ↦ (
    redirect_to (get_github_oauth_redirect_url h github nonce),
    record s { nonces = create_nonce_for nonce session_id (r.query "current_page") s.nonces },
  )
]

abbrev pub invalid_nonce : String → List Write
invalid_nonce nonce =
    fail 400 (str_append "Invalid nonce " (str_append nonce ", no session is bound"))

-- The checks of handleAuthorizationCode before it talks to GitHub: the session id of a good request.
unfoldable pub check_request : Request → Logins → Checked String
unfolding is_bound
check_request r s = do
  guard (r.query "error" == "")
      (fail 400 (str_append (r.query "error") (str_append ": " (r.query "error_description"))))
  guard (not (r.query "state" == "")) (fail 400 "No nonce is found in the request")
  session_id ← or_refuse r.session_id (fail 400 "No session id is found")
  guard (is_bound s.nonces (r.query "state") session_id) (invalid_nonce (r.query "state"))
  guard (not (r.query "code" == "")) (fail 401 "No authorization code is found in the request")
  pass session_id

-- What comes back from the token endpoint.
unfoldable pub take_token : GithubOauthLoginHandler → Exchange → Checked String
take_token h bad_endpoint =
    refuse (fail 401 (str_append "Invalid github token endpoint: " h.token_endpoint))
take_token h no_request = refuse (fail 401 "Failed to create request to github token endpoint")
take_token h (unreachable e) = refuse (fail 401 (str_append "Failed to get token from github: " e))
take_token h undecodable = refuse (fail 401 "Failed to decode github token api response")
take_token h (token t) = pass t

-- The profile with the id of the GitHub user.
unfoldable pub take_profile : ProfileAnswer → Checked (GithubProfileResponse × String)
take_profile (no_profile e) = refuse (fail 401 (str_append "Failed to get Github user profile: " e))
take_profile (profile p) = elim p.id [
  | none ↦ refuse (fail 401 "Failed to get Id of github user")
  | some n ↦ pass (p, itoa n)
]

abbrev pub new_github_user : GithubProfileResponse → String → User
new_github_user p github_id = record {
  id = "";
  username = p.login;
  display_name = p.name;
  avatar_url = p.avatar_url;
  github_id = github_id;
  dn42_asn = "";
  google_id = "";
  is_bot = false;
}

unfoldable pub load_github : String → Load
load_github github_id turn user mem =
    load_or_create_new_user_by_github_id turn.new_id github_id user turn.schedule mem

-- The end of handleAuthorizationCode, with the profile at hand.
unfoldable pub log_profile_in :
    GithubOauthLoginHandler
    → (ℕ → Turn)
    → Request
    → String
    → GithubProfileResponse × String
    → Logins
    → Outcome (List Write × Logins)
unfolding retry load_github finish
log_profile_in h turns r session_id (p, github_id) s =
    after
      (retry (load_github github_id) turns p.login max_retries 0 (new_github_user p github_id)
        s.users)
      (λ l. done (
        finish session_id (get_initial_page_by_nonce s.nonces (r.query "state"))
          h.login_success_redirect_url s l))

-- A refusal ends the request in the state that it has reached.
abbrev pub proceed :
    {A : Type 0}
    → Checked A
    → Logins
    → (A → Outcome (List Write × Logins))
    → Outcome (List Write × Logins)
proceed (refuse w) s next = done (w, s)
proceed (pass a) s next = next a

-- With a token, which is given back at the end.
unfoldable pub with_token :
    GithubOauthLoginHandler
    → Github
    → (ℕ → Turn)
    → Request
    → String
    → String
    → Logins
    → Outcome (List Write × Logins)
unfolding take_profile log_profile_in
with_token h github turns r session_id t s =
    let s' = record s { revoked = s.revoked ++ t ∷ [] } in
    proceed (take_profile (github.profile_of t)) s' (λ p. log_profile_in h turns r session_id p s')

unfoldable pub handle_authorization_code :
    GithubOauthLoginHandler → Github → (ℕ → Turn) → Request → Logins → Outcome (List Write × Logins)
unfolding check_request take_token with_token
handle_authorization_code h github turns r s = proceed (check_request r s) s (λ session_id.
    proceed (take_token h (github.exchange (get_github_token_endpoint h) (r.query "code"))) s
      (λ t. with_token h github turns r session_id t s))

unfoldable pub serve_http :
    GithubOauthLoginHandler
    → Github
    → String
    → (ℕ → Turn)
    → Request
    → Logins
    → Outcome (List Write × Logins)
unfolding handle_start handle_authorization_code has_suffix
serve_http h github nonce turns r s =
    if has_suffix r.path "/login/start"
    then done (handle_start h github nonce r s)
    else if has_suffix r.path "/login/auth"
    then handle_authorization_code h github turns r s
    else done (not_found r, s)
