-- ===== src/Agent/ChatBot.antt =====
-- webrtc-agents/pkg/handlers/chatbot_dc_handler.go: the answers of the chat bot. `sort` is sort.Slice
-- by the timestamp, and `generate` is the language model, with the text of each choice's message, if
-- it has one. Between the steps of a callback the callbacks of other channels may change the store.
pub mod Answers
use Prim.Native.String.{◌++◌ as str_append}
use webrtc_chat.Prelude.{
  ℕ, String, Bool, true, false, Option, none, some, List, [], ◌∷◌, ◌++◌, map, ◌==◌, is_some,
  if◌then◌else◌,
}
use webrtc_chat.Map
use webrtc_chat.Map.{Range}
use webrtc_chat.Agent.MsgsStore.{MsgsStore, Memory, AppendError, max_retries_reached, append_msg}
use webrtc_chat.Agent.MsgsStore.History.{
  ChatHistoryMessage, Sessions, get_messages_by_session_id, indexed,
}
use webrtc_chat.Agent.Bots.{ChatMessage, Clock, respond, ack_of}

pub data LlmRole : Type 0 where
  user assistant system tool : LlmRole

-- OpenRouterCompletionRequestMessage and OpenRouterCompletionRequest, without what is the same in all.
pub record RequestMessage : Type 0 where
  pub role : LlmRole
  pub content : String

pub record CompletionRequest : Type 0 where
  pub model : String
  pub messages : List RequestMessage

pub record TimestampedMessage : Type 0 where
  pub timestamp : ℕ
  pub sender_id : String
  pub content : String

-- ChatBotDCHandler, with the order of the ranges in DeepClone.
pub record ChatBotDcHandler : Type 0 where
  pub model : String
  pub generate : CompletionRequest → List (Option String)
  pub sort : List TimestampedMessage → List TimestampedMessage
  pub range : Range (List ChatHistoryMessage)

abbrev pub timestamped : ChatHistoryMessage → TimestampedMessage
timestamped m = record { timestamp = m.timestamp; sender_id = m.sender_id; content = m.content }

abbrev pub llm_message : String → TimestampedMessage → RequestMessage
llm_message our_node_id m = record {
  role = if m.sender_id == our_node_id then assistant else user;
  content = m.content;
}

-- The messages of a session in the store that is published.
unfoldable pub stored : Memory Sessions → String → List ChatHistoryMessage
unfolding get_messages_by_session_id
stored mem session_id = elim mem.ptr [
  | none ↦ []
  | some store ↦ get_messages_by_session_id store.collection session_id
]

unfoldable pub get_conversation_history :
    ChatBotDcHandler → Memory Sessions → String → String → List RequestMessage
unfolding stored
get_conversation_history h mem session_id our_node_id = elim mem.ptr [
  | none ↦ []
  | some store ↦
      map (llm_message our_node_id)
        (h.sort (map timestamped (get_messages_by_session_id store.collection session_id)))
]

abbrev pub system_prompt : RequestMessage
system_prompt = record {
  role = system;
  content = "You are a helpful assistant. Respond concisely and helpfully to user messages.";
}

-- The text of a response.
unfoldable pub response_text : List (Option String) → String
response_text (some text ∷ choices) = text
response_text _ = "I apologize, but I couldn't generate a response at this time."

abbrev pub session_of : String → String → String
session_of our_node_id remote_node_id = str_append our_node_id (str_append "-" remote_node_id)

unfoldable pub generate_llm_response : ChatBotDcHandler → Memory Sessions → String → String → String
unfolding get_conversation_history response_text
generate_llm_response h mem remote_node_id our_node_id = response_text (
    h.generate (record {
      model = h.model;
      messages =
          system_prompt
          ∷ get_conversation_history h mem (session_of our_node_id remote_node_id) our_node_id;
    }))

-- What the other callbacks do: in the turns of the two Appends, and before and after the history is
-- loaded.
pub record Meanwhile : Type 0 where
  pub first_append : List (Memory Sessions → Memory Sessions)
  pub before_load : Memory Sessions → Memory Sessions
  pub before_store : Memory Sessions → Memory Sessions
  pub second_append : List (Memory Sessions → Memory Sessions)

abbrev pub user_message : String → String → ChatMessage → String → ChatHistoryMessage
user_message our_node_id remote_node_id msg content = record {
  message_id = msg.message_id;
  sender_id = remote_node_id;
  session_id = session_of our_node_id remote_node_id;
  content = content;
  timestamp = msg.timestamp;
}

abbrev pub bot_message : String → String → Clock → String → ChatHistoryMessage
bot_message our_node_id remote_node_id clock text = record {
  message_id = clock.second_id;
  sender_id = our_node_id;
  session_id = session_of our_node_id remote_node_id;
  content = text;
  timestamp = clock.now_ms;
}

-- sendChatResponse: an answer that is not stored is not sent.
unfoldable pub send_chat_response :
    ChatBotDcHandler
    → Meanwhile
    → Clock
    → String
    → String
    → ChatMessage
    → String
    → Memory Sessions
    → List ChatMessage × Memory Sessions
unfolding append_msg
send_chat_response h w clock our_node_id remote_node_id msg text mem =
    let (mem', failed) =
      append_msg (indexed h.range) (bot_message our_node_id remote_node_id clock text)
        w.second_append mem in
    (if is_some failed then [] else respond clock msg text ∷ [], mem')

-- From the first Append on, over what it returns.
unfoldable pub answer_stored :
    ChatBotDcHandler
    → Meanwhile
    → Clock
    → String
    → String
    → ChatMessage
    → Memory Sessions × Option AppendError
    → List ChatMessage × Memory Sessions
unfolding generate_llm_response send_chat_response
answer_stored h w clock our_node_id remote_node_id msg (mem, some e) = ([], mem)
answer_stored h w clock our_node_id remote_node_id msg (mem, none) =
    let loaded = w.before_load mem in
    send_chat_response h w clock our_node_id remote_node_id msg
      (generate_llm_response h loaded remote_node_id our_node_id) (w.before_store loaded)

-- The text of a message, if it has one.
abbrev pub content_of : ChatMessage → Option String
content_of msg = elim msg.message [
  | some text ↦ some text
  | none ↦ elim msg.rich_text [ none ↦ none | some rich ↦ some rich.content ]
]

-- The callback of the chat channel.
unfoldable pub on_chat_message :
    ChatBotDcHandler
    → Meanwhile
    → Clock
    → String
    → String
    → Option ChatMessage
    → Memory Sessions
    → List ChatMessage × Memory Sessions
unfolding answer_stored append_msg
on_chat_message h w clock our_node_id remote_node_id none mem = ([], mem)
on_chat_message h w clock our_node_id remote_node_id (some msg) mem =
    if is_some msg.ack then ([], mem) else elim (content_of msg) [
      | none ↦ ([], mem)
      | some content ↦
          let (answers, mem') = answer_stored h w clock our_node_id remote_node_id msg (
            append_msg (indexed h.range) (user_message our_node_id remote_node_id msg content)
              w.first_append mem) in
          (ack_of clock msg ∷ answers, mem')
    ]
