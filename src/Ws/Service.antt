-- ===== src/Ws/Service.antt =====
-- webrtc-server/pkg/handler/handle_ws.go: ServeHTTP once the WebSocket is open. The handler waits for
-- its timer or for an error of the goroutine that reads; the two are state machines that take turns,
-- and a turn that cannot be taken changes nothing.
pub mod Ends
use webrtc_chat.Prelude.{
  ℕ, Bool, true, false, Option, none, some, List, [], ◌∷◌, Outcome, done, panic, nil_dereference,
  ◌>>=◌, is_some, if◌then◌else◌,
}
use webrtc_chat.Payloads.{MessagePayload}
use webrtc_chat.Errors.{Error}
use webrtc_chat.ConnReg.{open_connection, close_connection}
use webrtc_chat.Ws.{World, Call, handle_text_message}

-- The goroutine: in ReadMessage, at gcTimer.Reset, at connErrCh, or ended.
pub data Reader : Type 0 where
  reading resetting reporting reader_ended : Reader

-- The handler has returned when `returned` holds, and then gcTimer is nil.
pub record Service : Type 0 where
  pub world : World
  pub reader : Reader
  pub returned : Bool

-- What happens: a text message, one of another type, an error of ReadMessage, the goroutine's next
-- step after a message or an error, and the end of the timer.
pub data Event : Type 0 where
  text : Call → Option MessagePayload → Event
  other_type read_error : Event
  reset report : Event
  time_out : Event

-- The deferred calls.
abbrev pub close_service : Call → Service → Service
close_service call s = record s {
  world = record s.world { registry = close_connection s.world.registry call.key };
  returned = true;
}

-- After handleTextMessage: an error is logged, and nil resets the timer.
abbrev pub after_text : Service → World × Option Error → Service
after_text s (w, e) = record s { world = w; reader = if is_some e then reading else resetting }

-- `call` has the key, the number and the user of the connection; a text has the clock and the failing
-- writes of its call.
abbrev pub call_of : Call → Call → Call
call_of call at = record at {
  key = call.key;
  conn = call.conn;
  num_id = call.num_id;
  logged_in_as = call.logged_in_as;
  auth_type = call.auth_type;
}

unfoldable pub read_event : Call → Reader → Event → Service → Outcome Service
unfolding handle_text_message
read_event call reading (text at m) s =
    handle_text_message (call_of call at) m s.world >>= λ r. done (after_text s r)
read_event call reading read_error s = done (record s { reader = reporting })
read_event call resetting reset s =
    if s.returned then panic nil_dereference else done (record s { reader = reading })
read_event call reporting report s =
    done (if s.returned then s else close_service call (record s { reader = reader_ended }))
read_event call r e s = done s

unfoldable pub happen : Call → Event → Service → Outcome Service
unfolding read_event
happen call time_out s = done (if s.returned then s else close_service call s)
happen call (text at m) s = read_event call s.reader (text at m) s
happen call other_type s = done s
happen call read_error s = read_event call s.reader read_error s
happen call reset s = read_event call s.reader reset s
happen call report s = read_event call s.reader report s

unfoldable pub happen_all : Call → List Event → Service → Outcome Service
unfolding happen
happen_all call [] s = done s
happen_all call (e ∷ es) s = happen call e s >>= happen_all call es

-- The connection is opened, and handed out its number.
unfoldable pub open_service : Call → World → Call × Service
unfolding open_connection
open_service call w =
    let (cr, num_id) = open_connection w.registry call.key none call.now in
    (
      record call { num_id = num_id },
      record { world = record w { registry = cr }; reader = reading; returned = false },
    )

-- ServeHTTP with the events of the connection.
unfoldable pub serve_http : Call → List Event → World → Outcome Service
unfolding open_service happen_all
serve_http call events w = let (call', s) = open_service call w in happen_all call' events s
