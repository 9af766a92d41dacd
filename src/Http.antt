-- ===== src/Http.antt =====
-- What the handlers of webrtc-server/pkg/handler write to an http.ResponseWriter, in order, and
-- guards that end a handler early.
use Prim.Native.String
use webrtc_chat.Prelude.{ℕ, String, Bool, true, false, Option, none, some, List, [], ◌∷◌}

pub data Write : Type 0 where
  -- WriteHeader
  status : ℕ → Write
  -- json.NewEncoder(w).Encode(&ErrResponse{…})
  error_body : String → Write
  -- http.Redirect with StatusTemporaryRedirect
  redirect : String → Write
  -- Header().Set("Content-Type", …)
  content_type : String → Write
  -- the answers BotCreationSuccess, ProfileResponse and ProfileStatusResponse
  token_body : String → Write
  profile_body : (username display_name avatar_url : String) → Write
  status_body : Bool → Write
  -- w.Write, or io.Copy of what another server sent
  bytes : String → Write

abbrev pub fail : ℕ → String → List Write
fail code text = status code ∷ error_body text ∷ []

-- The value that a chain of checks passes on, or what is written in its place.
pub data Checked {ℓ} (A : Type ℓ) : Type ℓ where
  pass : A → Checked A
  refuse : List Write → Checked A

infixl 5 ◌>>=◌ ◌>>◌
abbrev pub ◌>>=◌ {ℓ κ} : {A : Type ℓ} {B : Type κ} → Checked A → (A → Checked B) → Checked B
pass a >>= f = f a
refuse w >>= f = refuse w

abbrev pub ◌>>◌ {ℓ} : {B : Type ℓ} → Checked (Unit {0}) → Checked B → Checked B
m >> k = m >>= λ _. k

abbrev pub guard : Bool → List Write → Checked (Unit {0})
guard true w = pass tt
guard false w = refuse w

abbrev pub or_refuse {ℓ} : {A : Type ℓ} → Option A → List Write → Checked A
or_refuse none w = refuse w
or_refuse (some a) w = pass a

-- What a request has of a handler's interest: its path, its session id, if the context has one, and
-- its query, with an empty text for a key that is not given.
pub record Request : Type 0 where
  pub path : String
  pub session_id : Option String
  pub query : String → String

abbrev pub not_found : Request → List Write
not_found r = fail 404 (String.◌++◌ "Path " (String.◌++◌ r.path " has no handler attached"))
