-- ===== src/Web/Profile/Avatar.antt =====
-- webrtc-server/pkg/handler/handle_profile.go: where the bytes of an avatar come from.
use Prim.Native.String.{◌++◌ as str_append}
use mathlib.Core.List.{Memᴰ}
use webrtc_chat.Prelude.{String, ◌≡◌, Option, none, List, [], ◌∷◌, ◌⊎◌, inl, inr}
use webrtc_chat.Text.{cut_prefix, trim_space}
use webrtc_chat.Http.{Write, content_type, bytes, fail}
use webrtc_chat.Web.Profile.{DataUrl, bad_data, data_of, Response, pass_on}

-- A text `mime;base64,…` with one of the types, and what the decoder makes of the rest.
pub record Embedded (decode : String → String ⊎ String) (mimes : List String)
    (after_data mime blob : String) : Type 0 where
  pub b64 : String
  pub supported : Memᴰ mime mimes
  pub form : after_data ≡ str_append (str_append mime ";") (str_append "base64," b64)
  pub decoded : decode (trim_space b64) ≡ inr blob

-- Why a text after "data:" is refused, and with what.
pub data Refused (decode : String → String ⊎ String) (mimes : List String) (after_data e : String)
    : Type 0 where
  unsupported :
      ((mime : String) → Memᴰ mime mimes → cut_prefix after_data (str_append mime ";") ≡ none)
      → e ≡ "unsupported MIME type"
      → Refused decode mimes after_data e
  plain :
      (mime after_mime : String)
      → Memᴰ mime mimes
      → after_data ≡ str_append (str_append mime ";") after_mime
      → cut_prefix after_mime "base64," ≡ none
      → e ≡ "not base64 encoded"
      → Refused decode mimes after_data e
  undecoded :
      (mime b64 : String)
      → Memᴰ mime mimes
      → after_data ≡ str_append (str_append mime ";") (str_append "base64," b64)
      → decode (trim_space b64) ≡ inl e
      → Refused decode mimes after_data e

-- What is made of a text after "data:".
abbrev Parsed : (String → String ⊎ String) → List String → String → DataUrl → Type 0
Parsed decode mimes after_data r =
    ((e : String) × (r ≡ bad_data e) × Refused decode mimes after_data e)
    ⊎ ((mime : String) × (blob : String) × (r ≡ data_of mime blob)
        × Embedded decode mimes after_data mime blob)

-- The types of images that an avatar may have.
abbrev pub image_types : List String
image_types = "image/jpeg" ∷ "image/png" ∷ "image/webp" ∷ "image/svg+xml" ∷ []

-- What an avatar URL is answered with.
pub data Avatar (decode : String → String ⊎ String) (fetch : String → Option Response)
    (url : String) (answer : List Write) : Type 0 where
  missing : url ≡ "" → answer ≡ fail 404 "No avatar URL found" → Avatar decode fetch url answer
  refused :
      (after_data e : String)
      → url ≡ str_append "data:" after_data
      → Refused decode image_types after_data e
      → answer ≡ fail 400 e
      → Avatar decode fetch url answer
  embedded :
      (after_data mime blob : String)
      → url ≡ str_append "data:" after_data
      → Embedded decode image_types after_data mime blob
      → answer ≡ content_type mime ∷ bytes blob ∷ []
      → Avatar decode fetch url answer
  fetched :
      cut_prefix url "data:" ≡ none → answer ≡ pass_on (fetch url) → Avatar decode fetch url answer
