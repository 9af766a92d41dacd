-- ===== src/Agent/OpenRouter/Failures.antt =====
-- webrtc-agents/pkg/llm with webrtc-agents/pkg/handlers/chatbot_dc_handler.go: the chat bot over the
-- client of the language model.
use webrtc_chat.Prelude.{String, ◌≡◌, none, some, List, [], ◌∷◌, ◌++◌, map}
use webrtc_chat.Agent.MsgsStore.{Memory}
use webrtc_chat.Agent.MsgsStore.History.{ChatHistoryMessage, Sessions}
use webrtc_chat.Agent.Bots.{ChatMessage, Clock, respond, ack_of}
use webrtc_chat.Agent.ChatBot.{
  ChatBotDcHandler, CompletionRequest, timestamped, llm_message, stored, system_prompt, session_of,
  user_message, bot_message, content_of, on_chat_message,
}
use webrtc_chat.Agent.ChatBot.Answers.{answer_to, Leaves, undisturbed, on_chat_message_lem}
use webrtc_chat.Agent.OpenRouter.{Service, OpenRouterCompletionProxy, generate, texts}
use webrtc_chat.Agent.OpenRouter.Ends.{Told, generate-Told}

-- The request that the chat bot makes of a history.
abbrev pub request_of : ChatBotDcHandler → String → List ChatHistoryMessage → CompletionRequest
request_of h our_node_id history = record {
  model = h.model;
  messages = system_prompt ∷ map (llm_message our_node_id) (h.sort (map timestamped history));
}

-- The chat bot that asks the service.
abbrev pub asking : OpenRouterCompletionProxy → Service → ChatBotDcHandler → ChatBotDcHandler
asking p c h = record h { generate = λ request. texts (generate p c request) }

-- While the Appends are undisturbed, and the other callbacks leave the session's messages: a text of a
-- peer to the chat bot that asks the service is acknowledged and answered, and the answer is stored in
-- the session. The answer is the text of the service's response, or, when a step of the request
-- fails, the text of the error.
pub on_chat_message-Told :
    (p : OpenRouterCompletionProxy) (c : Service) (h : ChatBotDcHandler)
    (before_load before_store : Memory Sessions → Memory Sessions) (clock : Clock)
    (our_node_id remote_node_id : String) (msg : ChatMessage) (content : String)
    (mem : Memory Sessions)
    → Leaves (session_of our_node_id remote_node_id) before_load
    → Leaves (session_of our_node_id remote_node_id) before_store
    → msg.ack ≡ none
    → content_of msg ≡ some content
    → let history =
        stored mem (session_of our_node_id remote_node_id)
        ++ user_message our_node_id remote_node_id msg content ∷ [] in
      (text : String) × (mem' : Memory Sessions) × Told p c (request_of h our_node_id history) text
      × (on_chat_message
            (asking p c h)
            (undisturbed before_load before_store)
            clock
            our_node_id
            remote_node_id
            (some msg)
            mem
          ≡ (ack_of clock msg ∷ respond clock msg text ∷ [], mem'))
      × (stored mem' (session_of our_node_id remote_node_id)
          ≡ history ++ bot_message our_node_id remote_node_id clock text ∷ [])
on_chat_message-Told p c h before_load before_store clock our remote msg content mem keeps_load
      keeps_store no_ack has_text =
    let history = stored mem (session_of our remote) ++ user_message our remote msg content ∷ [] in
    let (mem', answered, kept) =
      on_chat_message_lem (asking p c h) before_load before_store clock our remote msg content mem
        keeps_load keeps_store no_ack has_text in
    (
      answer_to (asking p c h) our history,
      mem',
      generate-Told p c (request_of h our history),
      answered,
      kept,
    )
