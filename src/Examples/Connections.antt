-- ===== src/Examples/Connections.antt =====
-- webrtc-agents/pkg/ws_runner/websocket.go: runs of the loops of a connection.
use webrtc_chat.Prelude.{ℕ, ◌≡◌, refl, none, List, [], ◌∷◌, done, true, ◌==◌, if◌then◌else◌}
use webrtc_chat.Payloads.{MessagePayload}
use webrtc_chat.Ws.{no_message}
use webrtc_chat.Agent.Runner.{
  Loop, start_messages_loop, Turn, read, fail_read, deliver, report_read, cancel, transmit, tick,
  see_reader, forward, finish, writer_ended, read_failed, reader_ended, ping_of, sent, pinged,
  take_turns, get_jwt, register_node_name,
}
use webrtc_chat.Agent.Runner.Pings.{pings, numbers, pings_numbered}

abbrev pub hello : MessagePayload
hello = record no_message { node_id = "hello" }

abbrev busy : List Turn
busy = tick 5 none ∷ read hello ∷ transmit hello none ∷ deliver ∷ tick 6 none ∷ forward ∷ []

abbrev after_busy : Loop
after_busy = record start_messages_loop {
  seq_id = 2;
  written = pinged (ping_of 1 5) ∷ sent hello ∷ pinged (ping_of 2 6) ∷ [];
  output = hello ∷ [];
}

busy-run : take_turns busy start_messages_loop ≡ done after_busy
unfolding take_turns
busy-run = refl

-- The reader fails first: the runner ends without a panic.
read_error-run :
    take_turns (fail_read "eof" ∷ report_read ∷ finish ∷ see_reader ∷ []) start_messages_loop
    ≡ done (record start_messages_loop {
      reader = reader_ended;
      writer = writer_ended;
      err_ch_closed = true;
      finished = true;
    })
unfolding take_turns
read_error-run = refl

pings_numbered_example : (k : ℕ) × (pings after_busy.written ≡ numbers k)
pings_numbered_example = pings_numbered busy after_busy busy-run

abbrev late : Loop
late = record start_messages_loop {
  writer = writer_ended;
  err_ch_closed = true;
  finished = true;
  reader = read_failed "eof";
}

late-run : take_turns (cancel ∷ finish ∷ fail_read "eof" ∷ []) start_messages_loop ≡ done late
unfolding take_turns
late-run = refl

register_node_name-token :
    register_node_name (get_jwt (λ name. if name == "JWT" then "t" else "") "JWT") "bot" ≡ ""
unfolding register_node_name get_jwt
register_node_name-token = refl
