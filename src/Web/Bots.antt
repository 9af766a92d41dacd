-- ===== src/Web/Bots.antt =====
-- webrtc-server/pkg/handler/handle_bots_management.go: the accounts of bots, and how a bot logs in
-- with the token of its account.
use Prim.Native.String.{◌++◌ as str_append}
use webrtc_chat.Prelude.{
  ℕ, ◌+◌, String, true, false, ◌≡◌, refl, ◌∙◌, ap, sym, Option, none, some, List, [], ◌∷◌, ◌⊎◌, inl,
  inr, Outcome, done, ◌>>=◌, ◌==◌, eq_refl, if◌then◌else◌, ◌&&◌, get_elem?, ltb,
  get_elem?-append_cases, get_elem?-append_end, length,
}
use webrtc_chat.Map.{Map}
use webrtc_chat.Errors.{username_duplicated, ok, err}
use webrtc_chat.Payloads.{AuthenticationType}
use webrtc_chat.User.{User, UserCreationPayload, Memory}
use webrtc_chat.User.Manager.{
  Attempt, returned, again, create_user, user_of_payload, by_id, by_username, get_user,
}
use webrtc_chat.User.Store.{IsValid}
use webrtc_chat.User.Lookup.{published, get_user-Looked}
use webrtc_chat.User.Requests.{Appended, Free, create_user_lem}
use webrtc_chat.Ws.Login.{get_logged_in_as}
use webrtc_chat.Text.{has_suffix}
use webrtc_chat.Http.{Write, content_type, error_body, token_body, fail}
use webrtc_chat.Web.Token.{
  Jwt, Claims, issue, validate, subject_of, user_id_from_jwt, agent_header, user_id-agent_header,
  default_token_life_span_secs,
}

-- A request: its Content-Type header with the media type that mime.ParseMediaType reads in it, the
-- body as the result of the JSON decoder, an error's text or a payload, and the fields of a form.
pub record BotRequest : Type 0 where
  pub path : String
  pub method : String
  pub content_type_header : String
  pub media_type : String
  pub json : String ⊎ UserCreationPayload
  pub form_value : String → String

abbrev of_json : String ⊎ UserCreationPayload → String ⊎ UserCreationPayload
of_json (inl e) = inl (str_append "invalid JSON body: " e)
of_json (inr payload) = inr payload

unfoldable pub parse_user_creation_payload : BotRequest → String ⊎ UserCreationPayload
parse_user_creation_payload r =
    if r.media_type == "application/json"
    then of_json r.json
    else if r.media_type == "multipart/form-data"
    then inr (record {
      username = r.form_value "username";
      display_name = r.form_value "display_name";
      avatar_url = r.form_value "avatar_url";
    })
    else if r.content_type_header == ""
    then of_json r.json
    else inl (str_append "unsupported content type: " r.content_type_header)

-- The end of handleAddBot, after CreateUser; `again` would be a manager whose loop still runs.
unfoldable pub answer_created : Jwt → String → ℕ → Attempt User × Memory → List Write × Memory
unfolding issue
answer_created jwt secret now (returned (ok user), mem) = elim (issue jwt secret now user.id) [
  | none ↦ (fail 500 "failed to issue token", mem)
  | some token ↦ (token_body token ∷ [], mem)
]
answer_created jwt secret now (returned (err username_duplicated), mem) =
    (fail 409 "username already exists", mem)
answer_created jwt secret now (returned (err e), mem) = (fail 500 "failed to create user", mem)
answer_created jwt secret now (again, mem) = ([], mem)

-- `new_id` and `schedule` are those of CreateUser.
unfoldable pub add_bot :
    Jwt
    → String
    → ℕ
    → String
    → List (Memory → Memory)
    → String ⊎ UserCreationPayload
    → Memory
    → Outcome (List Write × Memory)
unfolding answer_created
add_bot jwt secret now new_id schedule (inl e) mem = done (fail 400 e, mem)
add_bot jwt secret now new_id schedule (inr payload) mem =
    if payload.username == ""
    then done (fail 400 "username is required", mem)
    else create_user new_id payload true schedule mem >>= λ r.
        done (answer_created jwt secret now r)

unfoldable pub handle_add_bot :
    Jwt
    → String
    → ℕ
    → String
    → List (Memory → Memory)
    → BotRequest
    → Memory
    → Outcome (List Write × Memory)
unfolding parse_user_creation_payload add_bot
handle_add_bot jwt secret now new_id schedule r mem =
    add_bot jwt secret now new_id schedule (parse_user_creation_payload r) mem >>= λ x.
    done (content_type "application/json" ∷ x.0, x.1)

unfoldable pub serve_http :
    Jwt
    → String
    → ℕ
    → String
    → List (Memory → Memory)
    → BotRequest
    → Memory
    → Outcome (List Write × Memory)
unfolding handle_add_bot has_suffix
serve_http jwt secret now new_id schedule r mem =
    if has_suffix r.path "/add" && r.method == "POST"
    then handle_add_bot jwt secret now new_id schedule r mem
    else if has_suffix r.path "/delete" && r.method == "DELETE"
    then done (error_body "not implemented yet" ∷ [], mem)
    else done (fail 404 "no handlers matched the request.", mem)

-- What golang-jwt says of a token that was signed with the secret, before it expires.
abbrev pub Trusted : Jwt → String → Type 0
Trusted jwt secret =
    (claims : Claims) (token : String) (now : ℕ)
    → jwt.signed_string secret claims ≡ some token
    → ltb now claims.expires_at ≡ true
    → (read : Claims) × (jwt.parse_with_claims secret now token ≡ some (true, read))
      × (read.subject ≡ claims.subject)

not_free :
    {A : Type 0} (mem : Memory) (n : ℕ) (u : User) (k : String)
    → Free by_id k mem
    → get_elem? (published mem) n ≡ some u
    → u.id ≡ k
    → A
not_free mem n u k free at same = absurd (cc (ap (λ i. i == k) same, eq_refl k, free n u at))

-- The user with a fresh id is the one that was appended.
get_user-Appended :
    (user : User) (mem mem' : Memory)
    → Free by_id user.id mem
    → Appended user mem mem'
    → get_user by_id user.id mem' ≡ done (some user)
get_user-Appended user mem mem' free (v, grown) = elim (get_user-Looked by_id user.id mem' v) [
  | inl (ran, nobody) ↦
      let own =
        nobody (length (published mem)) user
          (rw grown (get_elem?-append_end (published mem) user)) in
      absurd (cc (eq_refl user.id, own))
  | inr (i, u, ran, at, same) ↦
      elim (get_elem?-append_cases (published mem) user i (rw (← grown) at)) [
        | inl old ↦ not_free mem i u user.id free old same
        | inr (end, is_new) ↦ ran ∙ ap (λ w. done (some w)) (sym is_new)
      ]
]

-- A POST that makes a bot of a username that no user has, with a fresh id, neither empty, on well
-- formed users that no other goroutine changes meanwhile, with a JWT library that reads back the
-- tokens it signs and does sign one: it is answered with the token, the bot is appended to the users,
-- and for as long as the token has not expired an agent that connects with it is logged in as that
-- bot, by the token, whatever its session.
pub bot_logs_in :
    (jwt : Jwt) (secret : String) (now later : ℕ) (new_id : String) (r : BotRequest) (mem : Memory)
    (payload : UserCreationPayload) (token : String) (session : Option String) (store : Map String)
    → Trusted jwt secret
    → IsValid mem
    → Free by_id new_id mem
    → (new_id == "") ≡ false
    → parse_user_creation_payload r ≡ inr payload
    → (payload.username == "") ≡ false
    → Free by_username payload.username mem
    → issue jwt secret now new_id ≡ some token
    → (token == "") ≡ false
    → ltb later (now + default_token_life_span_secs) ≡ true
    → let bot = user_of_payload new_id payload true in
      (mem' : Memory) × (handle_add_bot jwt secret now new_id [] r mem
        ≡ done (content_type "application/json" ∷ token_body token ∷ [], mem'))
      × Appended bot mem mem'
      × (get_logged_in_as
            (user_id_from_jwt jwt secret later (agent_header token))
            session
            store
            mem'
          ≡ done (some bot, AuthenticationType.jwt))
unfolding handle_add_bot add_bot answer_created issue validate subject_of get_logged_in_as
bot_logs_in jwt secret now later new_id r mem payload token session store trusted v fresh id_filled
      parsed name_filled free issued token_filled in_time =
    let bot = user_of_payload new_id payload true in
    elim (create_user_lem new_id payload true mem v) [
      | inl (ran, (n, u, at, taken)) ↦ absurd (cc (taken, eq_refl payload.username, free n u at))
      | inr (mem', ran, name_free, grown) ↦
          let (read, trusted_read, subject) = trusted _ token later issued in_time in
          let id_read : user_id_from_jwt jwt secret later (agent_header token) ≡ some new_id =
            user_id-agent_header jwt secret later token token_filled
            ∙ rw trusted_read (rw (subject, id_filled) refl) in
          (
            mem',
            rw (parsed, name_filled, ran) (rw (issued, answer_created) refl),
            grown,
            rw id_read (rw (get_user-Appended bot mem mem' fresh grown) refl),
          )
    ]
