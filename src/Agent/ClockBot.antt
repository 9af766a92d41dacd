-- ===== src/Agent/ClockBot.antt =====
-- webrtc-agents/pkg/handlers/clockbot_dc_handler.go: the bot that shows a clock. A context that
-- startClock makes is a number; `help` is the text of formatHelp, `now` and the ids are as in
-- Agent/Bots, and a time that is sent as a patch is its bytes.
pub mod Running
pub mod Patches
pub mod Race
use Prim.Native.String.{◌++◌ as str_append}
use webrtc_chat.Prelude.{
  ℕ, suc, String, Bool, true, false, Option, none, some, List, [], ◌∷◌, ◌++◌, Outcome, done, ◌>>=◌,
  ◌==◌, nat_eq, is_some, if◌then◌else◌,
}
use webrtc_chat.Map
use webrtc_chat.Map.{Map}
use webrtc_chat.Agent.Bots.{ChatMessage, Clock, respond, ack_of}
use webrtc_chat.Agent.Patch.{MessagePatchOrder, replace, marshal}

-- The cancel functions by their key; `is_cancelled` and `made_for`, the peer, are of the contexts
-- that were made, and `next` is the next of them.
pub record ClockBotDcHandler : Type 0 where
  pub general_properties : Map ℕ
  pub is_cancelled : ℕ → Bool
  pub made_for : ℕ → String
  pub next : ℕ

abbrev pub new_clock_bot : ClockBotDcHandler
new_clock_bot = record {
  general_properties = Map.empty;
  is_cancelled = λ c. false;
  made_for = λ c. "";
  next = 0;
}

abbrev pub cancel_key : String → String
cancel_key remote_node_id = str_append remote_node_id "_cancel_func"

-- A second call of a cancel function does nothing.
abbrev pub cancel : ℕ → ClockBotDcHandler → ClockBotDcHandler
cancel c bot = record bot { is_cancelled = λ d. if nat_eq c d then true else bot.is_cancelled d }

-- The callbacks of different channels run in goroutines of their own. What the others do while one
-- runs: between the Load and the call of the cancel function, between that and the Delete, before the
-- next Store, and between that and the end of startClock.
pub record Others : Type 0 where
  pub before_cancel : ClockBotDcHandler → ClockBotDcHandler
  pub before_delete : ClockBotDcHandler → ClockBotDcHandler
  pub before_store : ClockBotDcHandler → ClockBotDcHandler
  pub before_end : ClockBotDcHandler → ClockBotDcHandler

abbrev pub alone : Others
alone = record {
  before_cancel = λ bot. bot;
  before_delete = λ bot. bot;
  before_store = λ bot. bot;
  before_end = λ bot. bot;
}

-- Load, the call of what was loaded, and Delete of the key, whatever it holds by then.
unfoldable pub stop_clock_updater : Others → String → ClockBotDcHandler → ClockBotDcHandler
stop_clock_updater others remote_node_id bot =
    elim (Map.get bot.general_properties (cancel_key remote_node_id)) [
      | none ↦ bot
      | some c ↦
          let bot' = others.before_delete (cancel c (others.before_cancel bot)) in
          record bot' {
            general_properties = Map.remove bot'.general_properties (cancel_key remote_node_id);
          }
    ]

-- What startClock gets for the peer: no store in the context, no entry in the store, an error of
-- CreateDataChannel, or a channel.
pub data MsgStream : Type 0 where
  no_store no_entry refused created : MsgStream

abbrev pub is_created : MsgStream → Bool
is_created no_store = false
is_created no_entry = false
is_created refused = false
is_created created = true

-- The context of a new clock.
abbrev pub store_cancel : String → ClockBotDcHandler → ClockBotDcHandler
store_cancel remote_node_id bot = record {
  general_properties = Map.put bot.general_properties (cancel_key remote_node_id) bot.next;
  is_cancelled = bot.is_cancelled;
  made_for = λ c. if nat_eq bot.next c then remote_node_id else bot.made_for c;
  next = suc bot.next;
}

unfoldable pub start_clock : Others → String → MsgStream → ClockBotDcHandler → ClockBotDcHandler
unfolding stop_clock_updater
start_clock others remote_node_id stream bot =
    let stopped = others.before_store (stop_clock_updater others remote_node_id bot) in
    let stored = store_cancel remote_node_id stopped in
    if is_created stream then stored else cancel stopped.next (others.before_end stored)

-- The commands.
unfoldable pub obey :
    Others
    → String
    → Clock
    → String
    → String
    → MsgStream
    → ChatMessage
    → String
    → ClockBotDcHandler
    → List ChatMessage × ClockBotDcHandler
unfolding start_clock
obey others help clock now remote_node_id stream msg text bot =
    if text == "/start"
    then (respond clock msg help ∷ [], bot)
    else if text == "/now"
    then (
      respond clock msg (str_append "🕐 Current Time: " now) ∷ [],
      start_clock others remote_node_id stream bot,
    )
    else ([], bot)

-- The callback of the chat channel: an ACK for every text, and then the command.
unfoldable pub on_clock_message :
    Others
    → String
    → Clock
    → String
    → String
    → MsgStream
    → Option ChatMessage
    → ClockBotDcHandler
    → List ChatMessage × ClockBotDcHandler
unfolding obey
on_clock_message others help clock now remote_node_id stream none bot = ([], bot)
on_clock_message others help clock now remote_node_id stream (some msg) bot =
    if is_some msg.ack then ([], bot) else elim msg.message [
      | none ↦ ([], bot)
      | some text ↦
          let (answer, bot') = obey others help clock now remote_node_id stream msg text bot in
          (ack_of clock msg ∷ answer, bot')
    ]

-- What the loop of sendClockUpdates is woken by: the context is done, or the ticker, with the time
-- and whether Send succeeds.
pub data Wake : Type 0 where
  stopped : Wake
  ticked : List ℕ → Bool → Wake

-- The UTF-8 bytes of the text before the time.
abbrev pub clock_face : List ℕ
clock_face =
    240 ∷ 159 ∷ 149 ∷ 144 ∷ 32 ∷ 67 ∷ 117 ∷ 114 ∷ 114 ∷ 101 ∷ 110 ∷ 116 ∷ 32 ∷ 84 ∷ 105 ∷ 109 ∷ 101
    ∷ 58 ∷ 32 ∷ []

abbrev pub patch_of : List ℕ → List ℕ → MessagePatchOrder
patch_of message_id now = record {
  message_id = message_id;
  kind = replace;
  value = clock_face ++ now;
}

-- The packets that sendClockUpdates sends.
unfoldable pub send_clock_updates : List ℕ → List Wake → Outcome (List (List ℕ))
unfolding marshal
send_clock_updates message_id [] = done []
send_clock_updates message_id (stopped ∷ wakes) = done []
send_clock_updates message_id (ticked now sent ∷ wakes) =
    let rest = send_clock_updates message_id wakes in
    marshal (patch_of message_id now) >>= λ packet.
    if sent then (rest >>= λ packets. done (packet ∷ packets)) else done []

-- A callback: of the chat channel for a message or its close, or of a message stream that is closed
-- or fails. None but the message's knows more than the peer.
pub data Callback : Type 0 where
  messaged : String → Clock → String → String → MsgStream → Option ChatMessage → Callback
  chat_closed stream_closed stream_failed : String → Callback

unfoldable pub call_back : Others → Callback → ClockBotDcHandler → ClockBotDcHandler
unfolding on_clock_message stop_clock_updater
call_back others (messaged help clock now remote_node_id stream msg) bot =
    (on_clock_message others help clock now remote_node_id stream msg bot).1
call_back others (chat_closed remote_node_id) bot = stop_clock_updater others remote_node_id bot
call_back others (stream_closed remote_node_id) bot = stop_clock_updater others remote_node_id bot
call_back others (stream_failed remote_node_id) bot = stop_clock_updater others remote_node_id bot

-- Callbacks one after the other.
unfoldable pub call_backs : List Callback → ClockBotDcHandler → ClockBotDcHandler
unfolding call_back
call_backs [] bot = bot
call_backs (c ∷ cs) bot = call_backs cs (call_back alone c bot)
