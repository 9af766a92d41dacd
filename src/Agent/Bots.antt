-- ===== src/Agent/Bots.antt =====
-- webrtc-agents/pkg/handlers: the bots that answer chat messages: types.go, ping_dc_handler.go,
-- echo_dc_handler.go and counter_dc_handler.go. A bot gets a text as the result of json.Unmarshal,
-- `none` for an error, and answers with the messages that it sends; a failed send is only logged.
-- `Clock` has the clock's reading and the ids that uuid makes, for the first and the second message
-- that a call sends.
pub mod Counters
pub mod Echo
use webrtc_chat.Prelude.{
  ℕ, zero, suc, ◌+◌, String, Bool, true, false, Option, none, some, List, [], ◌∷◌, ◌++◌, ◌==◌,
  nat_eq, is_some, ◌||◌, if◌then◌else◌,
}
use Prim.Native.String.{◌++◌ as str_append}
use mathlib.Core.Option
use webrtc_chat.Map
use webrtc_chat.Map.{Map}
use webrtc_chat.SyncMap.{load_or_store, compare_and_swap}
use webrtc_chat.Decimal.{ℤ, decimal}

pub data ChatMessagePingDirection : Type 0 where
  ping pong : ChatMessagePingDirection
  other : String → ChatMessagePingDirection

pub record ChatMessagePing : Type 0 where
  pub direction : ChatMessagePingDirection
  pub seq : ℤ

-- The category of a file with its other fields, as one text.
pub record ChatMessageFile : Type 0 where
  pub fields : String

pub record ChatMessageAmend : Type 0 where
  pub message_id : String
  pub new_message_json : String

pub record ChatMessageText : Type 0 where
  pub content : String
  pub kind : String

-- The records ChatMessageACK and ChatMessageDelete have a message id as their one field.
pub record ChatMessage : Type 0 where
  pub message_id : String
  pub from_node_id : String
  pub to_node_id : String
  pub timestamp : ℕ
  pub file : Option ChatMessageFile
  pub ping_part : Option ChatMessagePing
  pub delete : Option String
  pub amend : Option ChatMessageAmend
  pub ack : Option String
  pub acked : Option Bool
  pub unread : Option Bool
  pub message : Option String
  pub rich_text : Option ChatMessageText

pub record Clock : Type 0 where
  pub now_ms : ℕ
  pub first_id : String
  pub second_id : String

-- A message with just its envelope, back to the sender of another.
abbrev pub reply : Clock → String → ChatMessage → ChatMessage
reply clock id msg = record {
  message_id = id;
  from_node_id = msg.to_node_id;
  to_node_id = msg.from_node_id;
  timestamp = clock.now_ms;
  file = none;
  ping_part = none;
  delete = none;
  amend = none;
  ack = none;
  acked = none;
  unread = none;
  message = none;
  rich_text = none;
}

abbrev pub ack_of : Clock → ChatMessage → ChatMessage
ack_of clock msg = record (reply clock clock.first_id msg) { ack = some msg.message_id }

-- sendChatResponse of the bots that obey commands.
abbrev pub respond : Clock → ChatMessage → String → ChatMessage
respond clock msg text = record (reply clock clock.second_id msg) { message = some text }

abbrev pub pong_of :
    ChatMessagePingDirection → Clock → ChatMessage → ChatMessagePing → List ChatMessage
pong_of ping clock msg p =
    record (reply clock clock.first_id msg) {
      ping_part = some (record { direction = pong; seq = p.seq });
    }
    ∷ []
pong_of pong clock msg p = []
pong_of (ChatMessagePingDirection.other s) clock msg p = []

-- The callback of setupPingDataChannel.
unfoldable pub on_ping : Clock → Option ChatMessage → List ChatMessage
on_ping clock none = []
on_ping clock (some msg) = elim msg.ping_part [
  | none ↦ []
  | some p ↦ pong_of p.direction clock msg p
]

-- The messages that the echo bot skips.
unfoldable pub is_control : ChatMessage → Bool
is_control msg =
    is_some msg.ack
    || (is_some msg.delete || (is_some msg.amend || (is_some msg.ping_part || is_some msg.file)))

-- The message that goes back: the received one, the other way round.
abbrev pub echo_of : Clock → ChatMessage → ChatMessage
echo_of clock msg = record msg {
  message_id = clock.second_id;
  from_node_id = msg.to_node_id;
  to_node_id = msg.from_node_id;
  ack = none;
  acked = none;
}

-- The callback of EchoDCHandler.
unfoldable pub on_echo : Clock → Option ChatMessage → List ChatMessage
unfolding is_control
on_echo clock none = []
on_echo clock (some msg) =
    if is_control msg
    then []
    else if is_some msg.message || is_some msg.rich_text
    then ack_of clock msg ∷ echo_of clock msg ∷ []
    else []

-- The sync.Map of CounterDCHandler. Between the LoadOrStore and the CompareAndSwap of a turn other
-- goroutines may run; a schedule lists what they do in the first turns.
abbrev pub Counters : Type 0
Counters = Map ℕ

-- One turn of the loop of increaseCounter: the new value, or `none` for a failed swap.
unfoldable pub increase_turn : (Counters → Counters) → String → Counters → Option ℕ × Counters
unfolding load_or_store compare_and_swap
increase_turn others key counters =
    let (n, loaded) = load_or_store counters key 0 in
    let (swapped, after) = compare_and_swap (others loaded) key n (n + 1) in
    (if swapped then some (n + 1) else none, after)

-- increaseCounter. After the schedule one more turn runs undisturbed.
unfoldable pub increase_counter :
    List (Counters → Counters) → String → Counters → Option ℕ × Counters
unfolding increase_turn
increase_counter [] key counters = increase_turn (λ c. c) key counters
increase_counter (others ∷ schedule) key counters =
    let (value, after) = increase_turn others key counters in
    let rest = increase_counter schedule key after in
    elim value [ some n ↦ (some n, after) | none ↦ rest ]

unfoldable pub reset_counter : String → Counters → Counters
reset_counter key counters = Map.put counters key 0

unfoldable pub get_counter : String → Counters → ℕ
get_counter key counters = elim (Map.get counters key) [ none ↦ 0 | some n ↦ n ]

-- The answer to a text, if it is a command. `help` is the text of formatHelp.
unfoldable pub command :
    String → List (Counters → Counters) → String → String → Counters → Option String × Counters
unfolding increase_counter reset_counter decimal
command help schedule remote_node_id text counters =
    if text == "/start"
    then (some help, counters)
    else if text == "/increase"
    then (let (n, after) = increase_counter schedule remote_node_id counters in
        (Option.map (λ v. str_append "Counter increased! Current value: " (decimal v)) n, after))
    else if text == "/reset"
    then (some "Counter reset! Current value: 0", reset_counter remote_node_id counters)
    else (none, counters)

-- The callback of the counter bot: an ACK for every text, and the answer to a command.
unfoldable pub on_counter :
    String
    → List (Counters → Counters)
    → Clock
    → String
    → Option ChatMessage
    → Counters
    → List ChatMessage × Counters
unfolding command
on_counter help schedule clock remote_node_id none counters = ([], counters)
on_counter help schedule clock remote_node_id (some msg) counters =
    if is_some msg.ack then ([], counters) else elim msg.message [
      | none ↦ ([], counters)
      | some text ↦
          let (answer, after) = command help schedule remote_node_id text counters in
          (
            ack_of clock msg ∷ elim answer [
              | none ↦ []
              | some t ↦ record (reply clock clock.second_id msg) { message = some t } ∷ []
            ],
            after,
          )
    ]
