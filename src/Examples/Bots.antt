-- ===== src/Examples/Bots.antt =====
-- webrtc-agents/pkg/handlers: runs of the track bot and of the clock bot.
use webrtc_chat.Prelude.{
  ℕ, String, true, false, ◌≡◌, refl, Option, none, some, List, [], ◌∷◌, ◌++◌, inr, done, nat_eq,
  if◌then◌else◌,
}
use webrtc_chat.Map
use webrtc_chat.Payloads.{offer}
use webrtc_chat.Agent.Signalling.{sdp_message}
use webrtc_chat.Agent.Bots.{ChatMessage, Clock, respond, ack_of}
use webrtc_chat.Agent.TrackBot.{
  Media, TrackEntry, OggTrack, load_ogg_files, format_track_list, on_track_message,
}
use webrtc_chat.Agent.ClockBot.{
  alone, cancel_key, created, start_clock, messaged, stream_closed, Callback, call_back,
}
use webrtc_chat.Agent.ClockBot.Running.{after, late_close_stops_clock}
use webrtc_chat.Agent.ClockBot.Race.{overtaken, TwoRun, close_race_leaves_two}

-- A connection is the list of its tracks, and a sender is the track's number. The last track can be
-- removed, but number 7 cannot.
unfoldable remove_last : ℕ → List ℕ → List ℕ
remove_last s [] = []
remove_last s (t ∷ []) = if nat_eq s t then [] else t ∷ []
remove_last s (t ∷ u ∷ ts) = t ∷ remove_last s (u ∷ ts)

abbrev remove_from : ℕ → List ℕ → List ℕ × Option String
remove_from s p = if nat_eq s 7 then (p, some "InvalidStateError") else (remove_last s p, none)

abbrev connections : Media (List ℕ) ℕ ℕ String
connections = record {
  stop = λ p s. p;
  remove_track = λ p s. remove_from s p;
  add_track = λ p t. (p ++ t ∷ [], inr t);
  create_offer = λ p. (p, inr "sdp");
  set_local_description = λ p d. (p, none);
  marshal = λ d. inr d;
}

abbrev tracks_of : List ℕ → List ℕ
tracks_of p = p

abbrev pub clock : Clock
clock = record { now_ms = 5; first_id = "m1"; second_id = "m2" }

abbrev pub says : String → ChatMessage
says text = record {
  message_id = "m0";
  from_node_id = "bob";
  to_node_id = "bot";
  timestamp = 4;
  file = none;
  ping_part = none;
  delete = none;
  amend = none;
  ack = none;
  acked = none;
  unread = none;
  message = some text;
  rich_text = none;
}

abbrev gens : List (String × ℕ)
gens = ("C4", 1) ∷ ("A4", 2) ∷ []

abbrev playing_c4 : Option (TrackEntry (List ℕ) ℕ)
playing_c4 = some (record { connection = 1 ∷ []; current_track_sender = some 1 })

on_track_message-play :
    on_track_message connections "help"
      (λ g. g)
      clock
      "bot"
      "bob"
      gens
      (some (says "/play A4"))
      playing_c4
    ≡ done (
      some (record { connection = 2 ∷ []; current_track_sender = some 2 }),
      ack_of clock (says "/play A4") ∷ respond clock (says "/play A4") "Now playing: A4" ∷ [],
      sdp_message offer "sdp" "bot" "bob" ∷ [],
    )
unfolding on_track_message remove_last
on_track_message-play = refl

format_track_list-gens :
    format_track_list gens
    ≡ "Available tracks:\n  - C4\n  - A4\n\nUse /play <track_name> to play a track."
unfolding format_track_list
format_track_list-gens = refl

abbrev rain : OggTrack ℕ
rain = record { name = "rain"; sample_rate = 48000; channels = 2; generator = 3 }

load_ogg_files-rates :
    load_ogg_files (λ path. some (record rain { channels = 1 })) ("a.ogg" ∷ []) gens ≡ gens
unfolding load_ogg_files
load_ogg_files-rates = refl

-- Number 7 stays, and is left from then on.
on_track_message-stays :
    on_track_message connections "help"
      (λ g. g)
      clock
      "bot"
      "bob"
      gens
      (some (says "/play A4"))
      (some (record { connection = 7 ∷ []; current_track_sender = some 7 }))
    ≡ done (
      some (record { connection = 7 ∷ 2 ∷ []; current_track_sender = some 2 }),
      ack_of clock (says "/play A4") ∷ respond clock (says "/play A4") "Now playing: A4" ∷ [],
      sdp_message offer "sdp" "bot" "bob" ∷ [],
    )
unfolding on_track_message remove_last
on_track_message-stays = refl

abbrev asks_time : String → Callback
asks_time peer = messaged "help" clock "12:00" peer created (some (says "/now"))

-- Two peers have a clock; bob's is the second that he asked for.
abbrev two_peers : List Callback
two_peers = asks_time "bob" ∷ asks_time "eve" ∷ asks_time "bob" ∷ []

close_race_leaves_two_example :
    let first = start_clock alone "bob" created (after two_peers) in
    let raced = call_back (overtaken true "bob") (stream_closed "bob") first in
    (Map.get raced.general_properties (cancel_key "bob") ≡ none)
    × TwoRun "bob" first.next raced.next (start_clock alone "bob" created raced)
close_race_leaves_two_example = close_race_leaves_two two_peers "bob" true

late_close_stops_clock_example :
    ((start_clock alone "bob" created
          (start_clock alone "bob" created (after two_peers))).is_cancelled
        (start_clock alone "bob" created (after two_peers)).next
      ≡ false)
    × ((call_back alone (stream_closed "bob") (
            start_clock alone "bob" created
              (start_clock alone "bob" created (after two_peers)))).is_cancelled
          (start_clock alone "bob" created (after two_peers)).next
        ≡ true)
late_close_stops_clock_example = late_close_stops_clock two_peers "bob"
