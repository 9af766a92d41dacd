-- ===== src/Examples/Chats.antt =====
-- webrtc-agents/pkg/handlers/chatbot_dc_handler.go: a text to the chat bot.
use webrtc_chat.Prelude.{String, ◌≡◌, refl, Option, none, some, List, [], ◌∷◌, ltb, if◌then◌else◌}
use webrtc_chat.Map.{entries_range}
use webrtc_chat.Agent.MsgsStore.{Memory}
use webrtc_chat.Agent.MsgsStore.History.{ChatHistoryMessage, Sessions}
use webrtc_chat.Agent.ChatBot.{
  ChatBotDcHandler, RequestMessage, TimestampedMessage, user_message, bot_message, response_text,
}
use webrtc_chat.Agent.ChatBot.Answers.{answer_to}
use webrtc_chat.Examples.Bots.{clock, says}

-- Insertion sort by the timestamp.
insert : TimestampedMessage → List TimestampedMessage → List TimestampedMessage
insert m [] = m ∷ []
insert m (x ∷ xs) =
    let rest = insert m xs in if ltb m.timestamp x.timestamp then m ∷ x ∷ xs else x ∷ rest

unfoldable pub sorted : List TimestampedMessage → List TimestampedMessage
unfolding insert
sorted [] = []
sorted (m ∷ ms) = insert m (sorted ms)

-- A model that repeats the last message.
abbrev last_of : List RequestMessage → List (Option String)
last_of [] = []
last_of (m ∷ []) = some m.content ∷ []
last_of (m ∷ n ∷ ms) = last_of (n ∷ ms)

abbrev pub bot : ChatBotDcHandler
bot = record {
  model = "model";
  generate = λ request. last_of request.messages;
  sort = sorted;
  range = entries_range (List ChatHistoryMessage);
}

abbrev pub empty_store : Memory Sessions
empty_store = record { ptr = none; next = 0 }

-- The clock of the peer is behind: its second text is sorted before the first answer.
answer_to-late :
    answer_to bot "bot" (
      user_message "bot" "bob" (says "one") "one"
      ∷ bot_message "bot" "bob" clock "first answer"
      ∷ user_message "bot" "bob" (record (says "two") { timestamp = 4 }) "two"
      ∷ [])
    ≡ "first answer"
unfolding sorted response_text
answer_to-late = refl
