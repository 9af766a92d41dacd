-- ===== src/Agent/Runner.antt =====
-- webrtc-agents/pkg/ws_runner/websocket.go: the loops between an agent and the server on one
-- WebSocket connection. The goroutines of startMessagesLoop, the one that empties dataCh and the
-- runner are state machines that take turns; a turn that cannot be taken changes nothing. An error
-- is its text.
pub mod Runs
pub mod Pings
pub mod Panics
use Prim.Native.String.{◌++◌ as str_append}
use webrtc_chat.Prelude.{
  ℕ, ◌+◌, ◌%◌, ◌^◌, String, Bool, true, false, Option, none, some, List, [], ◌∷◌, ◌++◌, Outcome,
  done, panic, closed_channel, ◌>>=◌, ◌==◌, is_some, if◌then◌else◌,
}
use webrtc_chat.Decimal.{decimal}
use webrtc_chat.Payloads.{MessagePayload, EchoPayload, c2s}

-- getJWT: the token, from the variable that is named, if any.
unfoldable pub get_jwt : (String → String) → String → String
get_jwt getenv env_name = if env_name == "" then "" else getenv env_name

-- The node name that is registered with.
unfoldable pub register_node_name : String → String → String
register_node_name jwt node_name = if jwt == "" then node_name else ""

-- The reader, in ReadJSON, at dataCh with a message, at errCh with an error, or ended.
pub data Reader : Type 0 where
  reading : Reader
  delivering : MessagePayload → Reader
  read_failed : String → Reader
  reader_ended : Reader

-- The writer, in its select, at errCh with an error, or ended.
pub data Writer : Type 0 where
  selecting : Writer
  write_failed : String → Writer
  writer_ended : Writer

-- What is written: what the agent sends, and pings.
pub data Frame : Type 0 where
  sent : MessagePayload → Frame
  pinged : EchoPayload → Frame

-- The two channels have room for one item; `output` is what was put on outputDataCh. The runner waits
-- at errCh until `finished`, and then it has closed the connection.
pub record Loop : Type 0 where
  pub seq_id : ℕ
  pub written : List Frame
  pub reader : Reader
  pub writer : Writer
  pub data_ch : Option MessagePayload
  pub output : List MessagePayload
  pub err_ch : Option String
  pub err_ch_closed : Bool
  pub finished : Bool

abbrev pub start_messages_loop : Loop
start_messages_loop = record {
  seq_id = 0;
  written = [];
  reader = reading;
  writer = selecting;
  data_ch = none;
  output = [];
  err_ch = none;
  err_ch_closed = false;
  finished = false;
}

abbrev pub ping_of : ℕ → ℕ → EchoPayload
ping_of seq_id now = record {
  direction = c2s;
  correlation_id = str_append "ping-" (decimal seq_id);
  server_timestamp = 0;
  timestamp = now;
  seq_id = seq_id;
}

-- The writer's next ping, and the result of WriteJSON.
unfoldable pub write_ping : ℕ → Option String → Loop → Loop
write_ping now failed l =
    let n = (l.seq_id + 1) % 2 ^ 64 in
    elim failed [
      | none ↦ record l { seq_id = n; written = l.written ++ pinged (ping_of n now) ∷ [] }
      | some e ↦ record l { seq_id = n; writer = write_failed e }
    ]

unfoldable pub write_item : MessagePayload → Option String → Loop → Loop
write_item item failed l = elim failed [
  | none ↦ record l { written = l.written ++ sent item ∷ [] }
  | some e ↦ record l { writer = write_failed e }
]

-- The writer returns, and its deferred call closes errCh.
abbrev pub end_writer : Loop → Loop
end_writer l = record l { writer = writer_ended; err_ch_closed = true }

-- The reader puts its error on errCh, and its deferred calls close dataCh and readErrCh.
abbrev pub end_reader : String → Loop → Loop
end_reader e l = record l { reader = reader_ended; err_ch = some e }

unfoldable pub report_read_error : String → Loop → Outcome Loop
report_read_error e l =
    if l.err_ch_closed
    then panic closed_channel
    else if is_some l.err_ch
    then done l
    else done (end_reader e l)

-- A message is delivered, unless it is an echo.
unfoldable pub take_message : MessagePayload → Loop → Loop
take_message m l = if is_some m.echo then l else record l { reader = delivering m }

-- The turns: of the reader, a message or an error that ReadJSON returns, the send on dataCh and on
-- errCh; of the writer, ctx.Done(), an item of txChannel, the ticker, the closed readErrCh and the
-- send on errCh; of the goroutine that empties dataCh; of the runner.
pub data Turn : Type 0 where
  read : MessagePayload → Turn
  fail_read : String → Turn
  deliver report_read : Turn
  cancel : Turn
  transmit : MessagePayload → Option String → Turn
  tick : ℕ → Option String → Turn
  see_reader report_write : Turn
  forward : Turn
  finish : Turn

unfoldable pub read_turn : Reader → Turn → Loop → Outcome Loop
unfolding take_message report_read_error
read_turn reading (read m) l = done (if l.finished then l else take_message m l)
read_turn reading (fail_read e) l = done (record l { reader = read_failed e })
read_turn (delivering m) deliver l =
    done (if is_some l.data_ch then l else record l { reader = reading; data_ch = some m })
read_turn (read_failed e) report_read l = report_read_error e l
read_turn r t l = done l

-- readErrCh is closed when the reader has ended.
unfoldable pub see_end : Reader → Loop → Loop
see_end reader_ended l = end_writer l
see_end r l = l

unfoldable pub write_turn : Writer → Turn → Loop → Loop
unfolding write_item write_ping see_end
write_turn selecting cancel l = end_writer l
write_turn selecting (transmit item failed) l = write_item item failed l
write_turn selecting (tick now failed) l = write_ping now failed l
write_turn selecting see_reader l = see_end l.reader l
write_turn (write_failed e) report_write l =
    if is_some l.err_ch then l else end_writer (record l { err_ch = some e })
write_turn w t l = l

unfoldable pub forward_data : Option MessagePayload → Loop → Loop
forward_data none l = l
forward_data (some m) l = record l { data_ch = none; output = l.output ++ m ∷ [] }

-- The runner takes an error, or sees that errCh is closed, and closes the connection.
unfoldable pub finish_run : Loop → Loop
finish_run l =
    if is_some l.err_ch
    then record l { err_ch = none; finished = true }
    else if l.err_ch_closed
    then record l { finished = true }
    else l

unfoldable pub take_turn : Turn → Loop → Outcome Loop
unfolding read_turn write_turn forward_data finish_run
take_turn (read m) l = read_turn l.reader (read m) l
take_turn (fail_read e) l = read_turn l.reader (fail_read e) l
take_turn deliver l = read_turn l.reader deliver l
take_turn report_read l = read_turn l.reader report_read l
take_turn forward l = done (forward_data l.data_ch l)
take_turn finish l = done (if l.finished then l else finish_run l)
take_turn cancel l = done (write_turn l.writer cancel l)
take_turn (transmit item failed) l = done (write_turn l.writer (transmit item failed) l)
take_turn (tick now failed) l = done (write_turn l.writer (tick now failed) l)
take_turn see_reader l = done (write_turn l.writer see_reader l)
take_turn report_write l = done (write_turn l.writer report_write l)

unfoldable pub take_turns : List Turn → Loop → Outcome Loop
unfolding take_turn
take_turns [] l = done l
take_turns (t ∷ ts) l = take_turn t l >>= take_turns ts
