-- ===== src/Web/Token.antt =====
-- webrtc-server/pkg/my_jwt and webrtc-server/pkg/handler/handle_jwt.go: the user of a request by its
-- Authorization header. The library golang-jwt is a parameter, `Jwt`.
use Prim.Native.Char.{code}
use Prim.Native.String
use text.Mathlib.TextLemmas.{cons-append, nil-append}
use webrtc_chat.Prelude.{
  ℕ, ◌+◌, String, Bool, true, false, ◌≡◌, refl, ◌∙◌, ap, Option, none, some, List, [], ◌∷◌, ◌&&◌,
  ◌==◌, leb, nat_eq, if◌then◌else◌,
}

-- jwt.RegisteredClaims, with the claims that Issue sets.
pub record Claims : Type 0 where
  pub subject : String
  pub issued_at : ℕ
  pub expires_at : ℕ

-- SignedString, and ParseWithClaims at a time: token.Valid and the claims, or `none` for an error.
pub record Jwt : Type 0 where
  pub signed_string : String → Claims → Option String
  pub parse_with_claims : String → ℕ → String → Option (Bool × Claims)

abbrev pub default_token_life_span_secs : ℕ
default_token_life_span_secs = 604800

-- SimpleJWTManager is its secret.
unfoldable pub issue : Jwt → String → ℕ → String → Option String
issue jwt secret now userid =
    jwt.signed_string secret (record {
      subject = userid;
      issued_at = now;
      expires_at = now + default_token_life_span_secs;
    })

unfoldable pub validate : Jwt → String → ℕ → String → Option (Bool × Claims)
validate jwt secret now token = jwt.parse_with_claims secret now token

-- strings.SplitN(s, " ", 2), if it has two parts.
unfoldable pub split_space : String → Option (String × String)
split_space String.[] = none
split_space (String.◌∷◌ c s) =
    let rest = split_space s in
    if nat_eq (code c) 32
    then some ("", s)
    else elim rest [ none ↦ none | some (a, b) ↦ some (String.◌∷◌ c a, b) ]

lower : ℕ → ℕ
lower c = if leb 65 c && leb c 90 then c + 32 else c

spells : String → List ℕ → Bool
unfolding lower
spells String.[] [] = true
spells String.[] (d ∷ ds) = false
spells (String.◌∷◌ c s) [] = false
spells (String.◌∷◌ c s) (d ∷ ds) = nat_eq (lower (code c)) d && spells s ds

-- strings.EqualFold(s, "Bearer"): no letter of it has a third case.
unfoldable pub is_bearer : String → Bool
unfolding spells
is_bearer s = spells s (98 ∷ 101 ∷ 97 ∷ 114 ∷ 101 ∷ 114 ∷ [])

-- What Validate says of a token, as far as the middleware goes on with it.
unfoldable pub subject_of : Option (Bool × Claims) → Option String
subject_of none = none
subject_of (some (false, claims)) = none
subject_of (some (true, claims)) = if claims.subject == "" then none else some claims.subject

-- The value that JWTMiddleware puts into the context, if any; the request goes on in any case.
unfoldable pub user_id_from_jwt : Jwt → String → ℕ → String → Option String
unfolding split_space is_bearer subject_of validate
user_id_from_jwt jwt secret now auth_header = elim (split_space auth_header) [
  | none ↦ none
  | some (scheme, token) ↦
      if is_bearer scheme
      then if token == "" then none else subject_of (validate jwt secret now token)
      else none
]

-- The header that an agent sends, of webrtc-agents/pkg/ws_runner/websocket.go.
unfoldable pub agent_header : String → String
agent_header token = String.◌++◌ "bearer " token

agent_header-chars :
    (t : String)
    → agent_header t
      ≡ String.◌∷◌ "b" (
          String.◌∷◌ "e"
            (String.◌∷◌ "a" (String.◌∷◌ "r" (String.◌∷◌ "e" (String.◌∷◌ "r" (String.◌∷◌ " " t))))))
unfolding agent_header
agent_header-chars t =
    cons-append "b" "earer " t
    ∙ ap (String.◌∷◌ "b") (
        cons-append "e" "arer " t
        ∙ ap (String.◌∷◌ "e") (
            cons-append "a" "rer " t
            ∙ ap (String.◌∷◌ "a") (
                cons-append "r" "er " t
                ∙ ap (String.◌∷◌ "r") (
                    cons-append "e" "r " t
                    ∙ ap (String.◌∷◌ "e") (
                        cons-append "r" " " t
                        ∙ ap (String.◌∷◌ "r")
                            (cons-append " " "" t ∙ ap (String.◌∷◌ " ") (nil-append t)))))))

agent_header-split : (t : String) → split_space (agent_header t) ≡ some ("bearer", t)
unfolding split_space
agent_header-split t = rw (agent_header-chars t) refl

-- The middleware reads an agent's header as the subject of its token.
pub user_id-agent_header :
    (jwt : Jwt) (secret : String) (now : ℕ) (t : String)
    → (t == "") ≡ false
    → user_id_from_jwt jwt secret now (agent_header t) ≡ subject_of (validate jwt secret now t)
unfolding user_id_from_jwt is_bearer
user_id-agent_header jwt secret now t filled =
    rw (agent_header-split t, user_id_from_jwt) (rw filled refl)
