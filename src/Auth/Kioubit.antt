-- ===== src/Auth/Kioubit.antt =====
-- webrtc-server/pkg/kioubit/kioubit.go and webrtc-server/pkg/handler/handle_kioutbit_login.go. The
-- formats and the cryptography of the standard library are a parameter; `K` is a public key. Times
-- are whole seconds.
use Prim.Native.String.{◌++◌ as str_append}
use webrtc_chat.Prelude.{
  ℕ, ◌-◌, ◌+◌, String, Bool, false, Option, none, some, List, [], ◌∷◌, ◌++◌, Outcome, done, panic,
  nil_dereference, bad_assertion, ◌>>=◌, not, ◌==◌, ltb, if◌then◌else◌, ◌⊎◌, inl, inr,
}
use webrtc_chat.User.{User}
use webrtc_chat.User.Manager.{load_or_create_new_user_by_dn42_asn}
use webrtc_chat.Ws.Login.{log_out}
use webrtc_chat.Text.{has_suffix, trim_space}
use webrtc_chat.Http.{Write, error_body, fail, status, Request, not_found}
use webrtc_chat.Auth.Nonces.{is_bound, create_nonce_for, get_initial_page_by_nonce}
use webrtc_chat.Auth.Retry.{Turn, Load, retry, max_retries, Logins, finish}
use webrtc_chat.Auth.Github.{redirect_to, invalid_nonce}

pub record KioubitAuthCallbackParams : Type 0 where
  pub asn : String
  pub time : ℕ
  pub mnt : List String
  pub effective_mnt : String
  pub domain : Option String
  pub user_token : Option String

-- pem.Decode and x509.ParsePKIXPublicKey: no block, no key, a key of another kind, or an ECDSA key.
pub data Pem (K : Type 0) : Type 0 where
  no_block no_key other_key : Pem K
  ecdsa_key : K → Pem K

-- json.Unmarshal into a pointer: an error's text, the nil that `null` leaves, or the fields.
pub data Parsed : Type 0 where
  malformed : String → Parsed
  null : Parsed
  fields : KioubitAuthCallbackParams → Parsed

pub record Formats (K : Type 0) : Type 0 where
  pub read_key : String → Pem K
  -- base64.StdEncoding: an error's text, or the bytes
  pub decode_base64 : String → String ⊎ String
  -- ecdsa.VerifyASN1 of the SHA-512 of a text against a signature
  pub verify : K → String → String → Bool
  pub unmarshal : String → Parsed

-- An error's text, or the parameters.
abbrev pub Verdict : Type 0
Verdict = String ⊎ KioubitAuthCallbackParams

abbrev pub default_timeout_secs : ℕ
default_timeout_secs = 60

-- math.Abs(a - b)
abbrev pub distance : ℕ → ℕ → ℕ
distance a b = (a - b) + (b - a)

-- The last checks of VerifyAuthToken. A domain that does not match is only logged, and the log
-- reads the domain also where there is none.
unfoldable pub check_fields : ℕ → KioubitAuthCallbackParams → Outcome Verdict
check_fields now p =
    if ltb default_timeout_secs (distance p.time now)
    then done (inl "the request has expired")
    else elim p.domain [ none ↦ panic nil_dereference | some d ↦ done (inr p) ]

unfoldable pub take_parsed : ℕ → Parsed → Outcome Verdict
unfolding check_fields
take_parsed now (malformed e) =
    done (inl (str_append "failed unmarshaling verified parameters: " e))
take_parsed now null = panic nil_dereference
take_parsed now (fields p) = check_fields now p

module _ {K : Type 0} (formats : Formats K) where
  unfoldable pub read_params : ℕ → String → Outcome Verdict
  unfolding take_parsed
  read_params now params = elim (formats.decode_base64 params) [
    | inl e ↦ done (inl (str_append "failed decoding verified parameters: " e))
    | inr bytes ↦ take_parsed now (formats.unmarshal bytes)
  ]

  unfoldable pub check_signature : ℕ → String → String → K → Outcome Verdict
  unfolding read_params
  check_signature now signature params key = elim (formats.decode_base64 signature) [
    | inl e ↦ done (inl "failed to decode signature")
    | inr bytes ↦
        if formats.verify key params bytes
        then read_params now params
        else done (inl "invalid signature")
  ]

  unfoldable pub verify_auth_token : ℕ → String → String → String → Outcome Verdict
  unfolding check_signature
  verify_auth_token now signature params pem_pub_key = elim (formats.read_key pem_pub_key) [
    | no_block ↦ done (inl "failed to decode PEM block")
    | no_key ↦ done (inl "internal server error")
    | other_key ↦ panic bad_assertion
    | ecdsa_key key ↦ check_signature now signature params key
  ]

  -- NewKioubitAuthCallbackParamsFromHTTPRequest; `none` is the nil key of a server without one.
  unfoldable pub new_callback_params : ℕ → Option String → Request → Outcome Verdict
  unfolding verify_auth_token
  new_callback_params now none r = done (inl "invalid pubkey")
  new_callback_params now (some pubkey) r =
      if r.query "params" == ""
      then done (inl "no params found")
      else if r.query "signature" == ""
      then done (inl "no signature found")
      else verify_auth_token now (r.query "signature") (r.query "params") pubkey

-- GetNonce, also of a nil pointer.
unfoldable pub get_nonce : Option KioubitAuthCallbackParams → String
get_nonce none = ""
get_nonce (some p) = elim p.user_token [ none ↦ "" | some token ↦ token ]

-- The first maintainer that is not blank, trimmed.
unfoldable pub first_mnt : List String → String
unfolding trim_space
first_mnt [] = ""
first_mnt (m ∷ ms) = if trim_space m == "" then first_mnt ms else trim_space m

abbrev pub new_kioubit_user : KioubitAuthCallbackParams → User
new_kioubit_user p = record {
  id = "";
  username = if p.effective_mnt == "" then first_mnt p.mnt else p.effective_mnt;
  display_name = p.effective_mnt;
  avatar_url = "";
  github_id = "";
  dn42_asn = p.asn;
  google_id = "";
  is_bot = false;
}

pub record KioubitLoginHandler : Type 0 where
  pub redir_url : String
  pub login_page : String
  pub login_success_redirect_url : String
  pub pubkey : Option String

unfoldable pub get_kioubit_login_page : KioubitLoginHandler → String
get_kioubit_login_page h =
    if h.login_page == "" then "https://dn42.g-load.eu/auth/" else h.login_page

-- url.Parse of a page, with the encoded query set: `none` for an error.
abbrev pub PageWithQuery : Type 0
PageWithQuery = String → List (String × String) → Option String

unfoldable pub get_kioubit_redirect_url : KioubitLoginHandler → PageWithQuery → String → String
unfolding get_kioubit_login_page
get_kioubit_redirect_url h page_with_query nonce =
    elim (page_with_query (get_kioubit_login_page h)
      (("return", h.redir_url) ∷ ("token", nonce) ∷ [])) [ none ↦ "" | some url ↦ url ]

unfoldable pub handle_start :
    KioubitLoginHandler → PageWithQuery → String → Request → Logins → List Write × Logins
unfolding get_kioubit_redirect_url
handle_start h page_with_query nonce r s = elim r.session_id [
  | none ↦ (error_body "No session id is found" ∷ [], s)
  | some session_id ↦ (
    redirect_to (get_kioubit_redirect_url h page_with_query nonce),
    record s { nonces = create_nonce_for nonce session_id (r.query "current_page") s.nonces },
  )
]

unfoldable pub load_kioubit : String → Load
load_kioubit dn42_asn turn user mem =
    load_or_create_new_user_by_dn42_asn turn.new_id dn42_asn user turn.schedule mem

abbrev pub write_first : List Write → List Write × Logins → List Write × Logins
write_first w (w', s) = (w ++ w', s)

-- From the fields of the parameters on; a nil pointer has none.
unfoldable pub log_asn_in :
    KioubitLoginHandler
    → (ℕ → Turn)
    → String
    → Option KioubitAuthCallbackParams
    → Logins
    → Outcome (List Write × Logins)
unfolding retry load_kioubit finish get_nonce first_mnt
log_asn_in h turns session_id none s = panic nil_dereference
log_asn_in h turns session_id (some p) s =
    let user = new_kioubit_user p in
    retry (load_kioubit p.asn) turns user.username max_retries 0 user s.users >>= λ l. done (
      finish session_id (get_initial_page_by_nonce s.nonces (get_nonce (some p)))
        h.login_success_redirect_url s l)

-- The rest of handleAuthorizationCode after the parameters were read, `none` for a nil pointer.
unfoldable pub go_on :
    KioubitLoginHandler
    → (ℕ → Turn)
    → Request
    → String
    → Option KioubitAuthCallbackParams
    → Logins
    → Outcome (List Write × Logins)
unfolding is_bound get_nonce log_asn_in
go_on h turns r session_id params s =
    if not (r.query "error" == "")
    then done
        (fail 400 (str_append (r.query "error") (str_append ": " (r.query "error_description"))), s)
    else if is_bound s.nonces (get_nonce params) session_id
    then log_asn_in h turns session_id params s
    else done (invalid_nonce (get_nonce params), s)

-- What handleAuthorizationCode does with the parameters: an error is written, and does not end it.
unfoldable pub with_verdict :
    KioubitLoginHandler
    → (ℕ → Turn)
    → Request
    → String
    → Logins
    → Verdict
    → Outcome (List Write × Logins)
unfolding go_on
with_verdict h turns r session_id s (inl e) =
    go_on h turns r session_id none s >>= λ x. done (write_first (fail 400 e) x)
with_verdict h turns r session_id s (inr p) = go_on h turns r session_id (some p) s

-- handleAuthorizationCode on the session id of the context.
unfoldable pub with_session :
    {K : Type 0}
    → KioubitLoginHandler
    → Formats K
    → ℕ
    → (ℕ → Turn)
    → Request
    → Logins
    → Option String
    → Outcome (List Write × Logins)
unfolding new_callback_params with_verdict
with_session h formats now turns r s none = done (fail 400 "No session id is found", s)
with_session h formats now turns r s (some session_id) =
    new_callback_params formats now h.pubkey r >>= with_verdict h turns r session_id s

unfoldable pub handle_authorization_code :
    {K : Type 0}
    → KioubitLoginHandler
    → Formats K
    → ℕ
    → (ℕ → Turn)
    → Request
    → Logins
    → Outcome (List Write × Logins)
unfolding with_session
handle_authorization_code h formats now turns r s =
    with_session h formats now turns r s r.session_id

-- LogOut of the memory manager returns no error.
unfoldable pub handle_logout : Request → Logins → List Write × Logins
unfolding log_out
handle_logout r s = elim r.session_id [
  | none ↦ (fail 400 "No valid session id is found", s)
  | some session_id ↦ (status 200 ∷ [], record s { sessions = log_out s.sessions session_id })
]

unfoldable pub serve_http :
    {K : Type 0}
    → KioubitLoginHandler
    → Formats K
    → PageWithQuery
    → String
    → ℕ
    → (ℕ → Turn)
    → Request
    → Logins
    → Outcome (List Write × Logins)
unfolding handle_start handle_authorization_code handle_logout has_suffix
serve_http h formats page_with_query nonce now turns r s =
    if has_suffix r.path "/login/start"
    then done (handle_start h page_with_query nonce r s)
    else if has_suffix r.path "/login/auth"
    then handle_authorization_code h formats now turns r s
    else if has_suffix r.path "/login/delete"
    then done (handle_logout r s)
    else done (not_found r, s)
