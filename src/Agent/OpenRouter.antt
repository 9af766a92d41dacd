-- ===== src/Agent/OpenRouter.antt =====
-- webrtc-agents/pkg/llm: the client of the language model. url.Parse, json, net/http and the service
-- are the parameter `Service`, and an error is its text. Of a response, the fields that no one reads
-- are left out.
pub mod Ends
pub mod Failures
use Prim.Native.String.{◌++◌ as str_append}
use webrtc_chat.Prelude.{
  ℕ, String, Option, none, some, List, [], ◌∷◌, map, ◌⊎◌, inl, inr, ◌==◌, nat_eq, if◌then◌else◌,
}
use webrtc_chat.Decimal.{decimal}
use webrtc_chat.Fallible.{◌>>=◌, labelled}
use webrtc_chat.Agent.ChatBot.{LlmRole, assistant, CompletionRequest}

pub record OpenRouterMessage : Type 0 where
  pub role : LlmRole
  pub content : String

pub record OpenRouterChoice : Type 0 where
  pub finish_reason : String
  pub index : ℕ
  pub message : Option OpenRouterMessage

pub record OpenRouterResponse : Type 0 where
  pub id : String
  pub provider : String
  pub model : String
  pub object : String
  pub created : ℕ
  pub choices : List OpenRouterChoice

-- url.URL: its path, and what is around it.
pub record Url : Type 0 where
  pub origin : String
  pub path : String
  pub query : String

pub record HttpRequest : Type 0 where
  pub url : String
  pub body : String
  pub content_type : String
  pub authorization : String

-- The body is read to its end, or until an error.
pub record HttpResponse : Type 0 where
  pub status_code : ℕ
  pub body : String ⊎ String

-- A value, or the text of an error.
pub record Service : Type 0 where
  pub getenv : String → String
  -- time.Now().Unix()
  pub now : ℕ
  pub parse_url : String → Url ⊎ String
  pub url_string : Url → String
  pub marshal : CompletionRequest → String ⊎ String
  -- http.NewRequestWithContext, for a POST: the error, if there is one
  pub new_request : String → String → Option String
  -- HttpClient.Do
  pub do_request : HttpRequest → HttpResponse ⊎ String
  pub unmarshal : String → OpenRouterResponse ⊎ String

pub record OpenRouterCompletionProxy : Type 0 where
  pub api_key : String
  pub api_key_from_env : String
  pub base_url : String
  pub authorization_header : Option (String → String)

abbrev pub default_auth_header : String → String
default_auth_header api_key = str_append "Bearer " api_key

unfoldable pub get_api_key : OpenRouterCompletionProxy → Service → String
get_api_key p c =
    if p.api_key == ""
    then (if p.api_key_from_env == "" then "" else c.getenv p.api_key_from_env)
    else p.api_key

unfoldable pub get_base_url : OpenRouterCompletionProxy → String
get_base_url p = if p.base_url == "" then "https://openrouter.ai/api/v1" else p.base_url

abbrev pub get_error_response : Service → String → String → OpenRouterResponse
get_error_response c model content = record {
  id = "";
  provider = "openrouter";
  model = model;
  object = "error";
  created = c.now;
  choices =
      record {
        finish_reason = "error";
        index = 0;
        message = some (record { role = assistant; content = content });
      }
      ∷ [];
}

unfoldable pub get_completion_url : OpenRouterCompletionProxy → Service → Url ⊎ String
unfolding get_base_url
get_completion_url p c = do
  url ← labelled "failed to parse base URL: " (c.parse_url (get_base_url p))
  inl (record url { path = str_append url.path "/chat/completions" })

abbrev auth_header : OpenRouterCompletionProxy → String → String
auth_header p api_key = elim p.authorization_header [
  | none ↦ default_auth_header api_key
  | some header ↦ header api_key
]

-- The request that is sent to a URL with a body.
unfoldable pub completion_request :
    OpenRouterCompletionProxy → Service → String → String → HttpRequest
unfolding get_api_key
completion_request p c url body = record {
  url = url;
  body = body;
  content_type = "application/json";
  authorization = auth_header p (get_api_key p c);
}

-- The error of http.NewRequestWithContext, or the request with its headers.
abbrev new_request : OpenRouterCompletionProxy → Service → String → String → HttpRequest ⊎ String
new_request p c url body = elim (c.new_request url body) [
  | none ↦ inl (completion_request p c url body)
  | some e ↦ inr e
]

abbrev pub api_error : ℕ → String → String
api_error status body =
    str_append "API error (status " (str_append (decimal status) (str_append "): " body))

-- The body of an answer with the status OK.
unfoldable pub accepted_body : HttpResponse → String ⊎ String
accepted_body response = do
  body ← labelled "Failed to read response: " response.body
  if nat_eq response.status_code 200 then inl body else inr (api_error response.status_code body)

-- The steps of Generate, to the first error.
unfoldable pub exchange :
    OpenRouterCompletionProxy → Service → CompletionRequest → OpenRouterResponse ⊎ String
unfolding get_completion_url completion_request accepted_body
exchange p c request = do
  url ← labelled "Failed to build completion URL: " (get_completion_url p c)
  body ← labelled "Failed to marshal request: " (c.marshal request)
  req ← labelled "Failed to create request: " (new_request p c (c.url_string url) body)
  response ← labelled "Failed to send request: " (c.do_request req)
  answer ← accepted_body response
  labelled "Failed to parse response: " (c.unmarshal answer)

unfoldable pub generate :
    OpenRouterCompletionProxy → Service → CompletionRequest → OpenRouterResponse
unfolding exchange
generate p c request = elim (exchange p c request) [
  | inl response ↦ response
  | inr e ↦ get_error_response c request.model e
]

-- What the chat bot reads of a response.
abbrev pub texts : OpenRouterResponse → List (Option String)
texts response =
    map (λ choice. elim choice.message [ none ↦ none | some m ↦ some m.content ]) response.choices
