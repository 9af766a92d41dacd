-- ===== src/Examples/Stores.antt =====
-- webrtc-agents: a message store, an Ogg file, and the answers of small bots.
use webrtc_chat.Prelude.{
  ℕ, suc, inr, ◌≡◌, refl, Bool, true, false, none, some, List, [], ◌∷◌, ◌++◌, arith,
}
use webrtc_chat.Map
use webrtc_chat.Map.{entries_range}
use webrtc_chat.Map.{Map}
use webrtc_chat.Agent.MsgsStore.{MsgsStore, MsgsCollection, Memory, append_loop, append_msg}
use webrtc_chat.Agent.MsgsStore.History.{ChatHistoryMessage, Sessions}
use webrtc_chat.Agent.MsgsStore.Linear.{Linear, append_msg-Linear}
use webrtc_chat.Agent.Ogg.{
  Page, NextPage, page, end_of_file, OggFiles, Generator, Header, packet, returned, audio_packet,
  get_packet,
}
use webrtc_chat.Agent.Bots.{
  ChatMessage, Clock, Counters, reply, ack_of, echo_of, on_echo, on_counter,
}

-- Messages are numbers, a collection lists them.
abbrev listed : MsgsCollection (List ℕ) ℕ
listed = record { empty = []; deep_clone = λ c. c; append = λ c m. c ++ m ∷ [] }

-- Another goroutine that appends 7.
abbrev intruder : Memory (List ℕ) → Memory (List ℕ)
intruder m = record {
  ptr = some (record { address = m.next; collection = 7 ∷ [] });
  next = suc m.next;
}

abbrev no_messages : Memory (List ℕ)
no_messages = record { ptr = none; next = 0 }

append_loop-run :
    append_loop listed 2 8 (intruder ∷ []) no_messages
    ≡ (record { ptr = some (record { address = 2; collection = 7 ∷ 8 ∷ [] }); next = 3 }, none)
unfolding append_loop
append_loop-run = refl

append_msg-Linear_example :
    Linear listed 8 10000
      (intruder ∷ [])
      no_messages
      (append_msg listed 8 (intruder ∷ []) no_messages)
append_msg-Linear_example =
    append_msg-Linear listed 8 (intruder ∷ []) no_messages
      (
        (λ m. (
          omega arith,
          inr (record { address = m.next; collection = 7 ∷ [] }, refl, omega arith, omega arith),
        )),
        tt,
      )
      tt

-- A file with one metadata page and one audio page, and a reader that is the pages to come.
abbrev tags : Page
tags = record { payload = []; granule_position = 0; metadata = true }

abbrev audio : Page
audio = record { payload = 1 ∷ 2 ∷ []; granule_position = 960; metadata = false }

abbrev next_of : List Page → List Page × NextPage
next_of [] = ([], end_of_file)
next_of (p ∷ pages) = (pages, page p)

abbrev song : OggFiles (List Page)
song = record { open_reader = some (tags ∷ audio ∷ []); parse_next_page = next_of }

abbrev rtp_header : Header
rtp_header = record { ssrc = 1; payload_type = 111; sequence_number = 2; timestamp = 960 }

abbrev generator : List Page → Bool → Generator (List Page)
generator pages is_done = record {
  reader = pages;
  granule_pos = 0;
  is_done = is_done;
  locked = false;
}

get_packet-run :
    get_packet song 2 rtp_header (generator (audio ∷ []) false)
    ≡ returned (
      record (generator [] false) { granule_pos = 960 },
      packet (audio_packet song rtp_header audio),
    )
unfolding get_packet
get_packet-run = refl

abbrev clock : Clock
clock = record { now_ms = 5; first_id = "m1"; second_id = "m2" }

abbrev from_bob : ChatMessage
from_bob = record {
  message_id = "m0";
  from_node_id = "bob";
  to_node_id = "bot";
  timestamp = 4;
  file = none;
  ping_part = none;
  delete = none;
  amend = none;
  ack = none;
  acked = none;
  unread = none;
  message = some "/increase";
  rich_text = none;
}

on_counter-run :
    (on_counter "help" [] clock "bob" (some from_bob) (Map.put Map.empty "bob" 41)).0
    ≡ ack_of clock from_bob
      ∷ record (reply clock "m2" from_bob) { message = some "Counter increased! Current value: 42" }
      ∷ []
unfolding on_counter Map.get Map.put Map.empty
on_counter-run = refl

on_echo-run : on_echo clock (some from_bob) ≡ ack_of clock from_bob ∷ echo_of clock from_bob ∷ []
unfolding on_echo
on_echo-run = refl

abbrev bump : Counters → Counters
bump c = Map.put c "bob" 9

abbrev question : ChatHistoryMessage
question = record {
  message_id = "q1";
  sender_id = "bob";
  session_id = "bot-bob";
  content = "hi";
  timestamp = 6;
}

abbrev history : MsgsStore Sessions
history = record { address = 0; collection = Map.put Map.empty "bot-ann" (question ∷ []) }
