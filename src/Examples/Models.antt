-- ===== src/Examples/Models.antt =====
-- webrtc-agents/pkg/llm: the chat bot, while the service refuses.
use Prim.Native.String.{◌++◌ as str_append}
use webrtc_chat.Prelude.{String, ◌≡◌, refl, none, some, [], ◌∷◌, ◌++◌, inl, inr}
use webrtc_chat.Decimal.{decimal}
use webrtc_chat.Agent.MsgsStore.{Memory}
use webrtc_chat.Agent.MsgsStore.History.{Sessions}
use webrtc_chat.Agent.Bots.{ack_of, respond}
use webrtc_chat.Agent.ChatBot.{stored, session_of, user_message, bot_message, on_chat_message}
use webrtc_chat.Agent.ChatBot.Answers.{undisturbed}
use webrtc_chat.Agent.OpenRouter.{Service, OpenRouterCompletionProxy, generate, get_error_response}
use webrtc_chat.Agent.OpenRouter.Ends.{Told}
use webrtc_chat.Agent.OpenRouter.Failures.{request_of, asking, on_chat_message-Told}
use webrtc_chat.Examples.Bots.{clock, says}
use webrtc_chat.Examples.Chats.{bot, empty_store}

-- A service that refuses every key.
abbrev service : Service
service = record {
  getenv = λ name. "guess";
  now = 7;
  parse_url = λ text. inl (record { origin = text; path = ""; query = "" });
  url_string = λ url. str_append url.origin (str_append url.path url.query);
  marshal = λ request. inl request.model;
  new_request = λ url body. none;
  do_request = λ request. inl (record { status_code = 401; body = inl "no" });
  unmarshal = λ body. inr "not read";
}

abbrev from_env : OpenRouterCompletionProxy
from_env = record {
  api_key = "";
  api_key_from_env = "OPENROUTER_APIKEY";
  base_url = "";
  authorization_header = none;
}

generate-refused :
    generate from_env service (request_of bot "bot" [])
    ≡ get_error_response service "model" "API error (status 401): no"
unfolding generate decimal
generate-refused = refl

on_chat_message-Told_example :
    (text : String) × (mem' : Memory Sessions) × Told from_env service
      (request_of bot "bot" (
        stored empty_store (session_of "bot" "bob")
        ++ user_message "bot" "bob" (says "hi") "hi" ∷ []))
      text
    × (on_chat_message
          (asking from_env service bot)
          (undisturbed (λ m. m) (λ m. m))
          clock
          "bot"
          "bob"
          (some (says "hi"))
          empty_store
        ≡ (ack_of clock (says "hi") ∷ respond clock (says "hi") text ∷ [], mem'))
    × (stored mem' (session_of "bot" "bob")
        ≡ (stored empty_store (session_of "bot" "bob")
            ++ user_message "bot" "bob" (says "hi") "hi" ∷ [])
          ++ bot_message "bot" "bob" clock text ∷ [])
on_chat_message-Told_example =
    on_chat_message-Told from_env service bot (λ m. m) (λ m. m) clock "bot" "bob" (says "hi") "hi"
      empty_store (λ m. refl) (λ m. refl) refl refl
