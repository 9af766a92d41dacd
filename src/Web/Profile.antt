-- ===== src/Web/Profile.antt =====
-- webrtc-server/pkg/handler/handle_profile.go: the profile of a user, the avatar and the status of a
-- session. The base64 decoder returns bytes, or the text of its error; `fetch` is http.Get, with
-- `none` for an error.
pub mod Avatar
pub mod Sessions
use Prim.Native.String.{◌++◌ as str_append}
use webrtc_chat.Prelude.{
  ℕ, String, Bool, true, false, Option, none, some, List, [], ◌∷◌, ◌++◌, ◌⊎◌, inl, inr, Outcome,
  done, ◌>>=◌, ◌==◌, nat_eq, is_some, if◌then◌else◌,
}
use webrtc_chat.Map.{Map}
use webrtc_chat.Text.{cut_prefix, trim_space}
use webrtc_chat.User.{User, Memory}
use webrtc_chat.User.Manager.{by_id, by_username, get_user}
use webrtc_chat.Ws.Login.{get_user_id_by_session_id}
use webrtc_chat.Http
use webrtc_chat.Http.{
  Write, status, error_body, content_type, profile_body, status_body, bytes, fail, Checked, pass,
  refuse, or_refuse, Request,
}

-- The first half of both handlers: the user that the query names.
unfoldable pub named_user : String → Memory → Outcome (Checked User)
named_user name mem =
    get_user by_username name mem >>= λ found. done (or_refuse found (fail 404 "User is not found"))

-- The other half: the user of the session, nil if there is none.
unfoldable pub user_of_session :
    Option String → Map String → Memory → Outcome (Checked (Option User))
user_of_session none sessions mem = done (refuse (fail 400 "No session Id is found"))
user_of_session (some session_id) sessions mem =
    if get_user_id_by_session_id sessions session_id == ""
    then done (refuse (fail 401 "Unauthorized"))
    else get_user by_id (get_user_id_by_session_id sessions session_id) mem >>= λ found.
        done (pass found)

abbrev pub no_user : List Write
no_user = fail 401 "User didn't found"

abbrev pub settle {ℓ} : {A : Type ℓ} → (A → List Write) → Checked A → List Write
settle f (pass a) = f a
settle f (refuse w) = w

-- ProfileHandler.ServeHTTP
unfoldable pub write_profile : Option User → List Write
write_profile none = no_user
write_profile (some u) = profile_body u.username u.display_name u.avatar_url ∷ []

unfoldable pub serve_profile : Request → Map String → Memory → Outcome (List Write)
unfolding named_user user_of_session write_profile
serve_profile r sessions mem =
    if r.query "username" == ""
    then (user_of_session r.session_id sessions mem >>= λ c.
        done (content_type "application/json" ∷ settle write_profile c))
    else named_user (r.query "username") mem >>= λ c.
        done (content_type "application/json" ∷ settle (λ u. write_profile (some u)) c)

-- What parseB64DataURL returns: no MIME type and no error, an error, or a MIME type with the bytes.
pub data DataUrl : Type 0 where
  no_data : DataUrl
  bad_data : String → DataUrl
  data_of : (mime blob : String) → DataUrl

abbrev pub supported_mime_types : List String
supported_mime_types = "image/jpeg" ∷ "image/png" ∷ "image/webp" ∷ "image/svg+xml" ∷ []

abbrev pub of_decoded : String → String ⊎ String → DataUrl
of_decoded mime (inl e) = bad_data e
of_decoded mime (inr blob) = data_of mime blob

unfoldable pub parse_encoded : (String → String ⊎ String) → String → String → DataUrl
unfolding cut_prefix trim_space
parse_encoded decode mime after_mime = elim (cut_prefix after_mime "base64,") [
  | none ↦ bad_data "not base64 encoded"
  | some after_b64 ↦ of_decoded mime (decode (trim_space after_b64))
]

unfoldable pub parse_mime : (String → String ⊎ String) → List String → String → DataUrl
unfolding cut_prefix parse_encoded
parse_mime decode [] after_data = bad_data "unsupported MIME type"
parse_mime decode (mime ∷ mimes) after_data =
    let rest = parse_mime decode mimes after_data in
    elim (cut_prefix after_data (str_append mime ";")) [
      | none ↦ rest
      | some after_mime ↦ parse_encoded decode mime after_mime
    ]

unfoldable pub parse_b64_data_url : (String → String ⊎ String) → String → DataUrl
unfolding parse_mime
parse_b64_data_url decode url = elim (cut_prefix url "data:") [
  | none ↦ no_data
  | some after_data ↦ parse_mime decode supported_mime_types after_data
]

pub record Response : Type 0 where
  pub status_code : ℕ
  pub content_type_header : String
  pub body : String

-- From http.Get on; a failed copy is only logged.
unfoldable pub pass_on : Option Response → List Write
pass_on none = fail 500 "Failed to fetch avatar"
pass_on (some resp) =
    if nat_eq resp.status_code 200
    then (if resp.content_type_header == ""
        then bytes resp.body ∷ []
        else content_type resp.content_type_header ∷ bytes resp.body ∷ [])
    else fail resp.status_code "Upstream returned error"

unfoldable pub write_avatar :
    (String → String ⊎ String) → (String → Option Response) → String → List Write
unfolding parse_b64_data_url pass_on
write_avatar decode fetch url =
    if url == "" then fail 404 "No avatar URL found" else elim (parse_b64_data_url decode url) [
      | no_data ↦ pass_on (fetch url)
      | bad_data e ↦ fail 400 e
      | data_of mime blob ↦ content_type mime ∷ bytes blob ∷ []
    ]

unfoldable pub serve_user_avatar :
    (String → String ⊎ String) → (String → Option Response) → Option User → List Write
unfolding write_avatar
serve_user_avatar decode fetch none = no_user
serve_user_avatar decode fetch (some u) = write_avatar decode fetch u.avatar_url

-- ProfileAvatarHandler.ServeHTTP
unfoldable pub serve_avatar :
    (String → String ⊎ String)
    → (String → Option Response)
    → Request
    → Map String
    → Memory
    → Outcome (List Write)
unfolding named_user user_of_session serve_user_avatar
serve_avatar decode fetch r sessions mem =
    if r.query "username" == ""
    then (user_of_session r.session_id sessions mem >>= λ c.
        done (content_type "application/json" ∷ settle (serve_user_avatar decode fetch) c))
    else named_user (r.query "username") mem >>= λ c.
        done (
          content_type "application/json" ∷ settle (λ u. serve_user_avatar decode fetch (some u)) c)

-- ProfileStatusHandler.ServeHTTP
unfoldable pub status_of : Map String → Memory → String → Outcome Bool
status_of sessions mem session_id =
    if get_user_id_by_session_id sessions session_id == ""
    then done false
    else get_user by_id (get_user_id_by_session_id sessions session_id) mem >>= λ found.
        done (is_some found)

unfoldable pub serve_status : Request → Map String → Memory → Outcome (List Write)
unfolding status_of
serve_status r sessions mem = elim r.session_id [
  | none ↦ done (status_body false ∷ [])
  | some session_id ↦
      status_of sessions mem session_id >>= λ logged_in. done (status_body logged_in ∷ [])
]
