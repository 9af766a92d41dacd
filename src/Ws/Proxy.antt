-- ===== src/Ws/Proxy.antt =====
-- webrtc-server/pkg/ws_proxy: callers of WriteJSON, one for every number, and the goroutine of Run,
-- in any order. The channels have no room: a send and its receive are one step. No one closes the
-- channel of a request. A value is its JSON text.
pub mod Order
pub mod Progress
use webrtc_chat.Prelude.{
  ℕ, String, ◌≡◌, Bool, true, false, Option, none, List, [], ◌∷◌, ◌++◌, nat_eq, if◌then◌else◌,
}

-- Where a call of WriteJSON stands: not made, at `<-ws_proxy.requestsChan`, at `requestC <- request`,
-- or at `<-request.Err`.
pub data Caller : Type 0 where
  idle : Caller
  calling holding awaiting : String → Caller

-- Where the goroutine stands: not started, so that requestsChan is nil; in its select; at
-- `<-requestC`, which a caller has; in Conn.WriteJSON; at `request.Err <-`; or ended, with
-- requestsChan closed.
pub data Loop : Type 0 where
  unstarted offering : Loop
  receiving : ℕ → Loop
  writing : ℕ → String → Loop
  answering : ℕ → String → Option String → Loop
  ended : Loop

-- A call of Conn.WriteJSON for a caller, or of WriteJSON by it, with the error that it returned.
pub record Write : Type 0 where
  pub caller : ℕ
  pub payload : String
  pub err : Option String

pub record WebsocketWriteProxy : Type 0 where
  pub loop : Loop
  pub cancelled : Bool
  pub callers : ℕ → Caller
  pub written : List Write
  pub returned : List Write
  -- the callers that were told that the proxy is closed
  pub refused : List ℕ

abbrev pub new_websocket_write_proxy : WebsocketWriteProxy
new_websocket_write_proxy = record {
  loop = unstarted;
  cancelled = false;
  callers = λ w. idle;
  written = [];
  returned = [];
  refused = [];
}

abbrev pub update : (ℕ → Caller) → ℕ → Caller → ℕ → Caller
update callers w c v = if nat_eq w v then c else callers v

-- The steps of a call and of the goroutine that serves it.
pub data Serve (s : WebsocketWriteProxy) : WebsocketWriteProxy → Type 0 where
  take :
      (w : ℕ) {value : String}
      → s.loop ≡ offering
      → s.callers w ≡ calling value
      → Serve s (record s { loop = receiving w; callers = update s.callers w (holding value) })
  pass :
      (w : ℕ) {value : String}
      → s.loop ≡ receiving w
      → s.callers w ≡ holding value
      → Serve s (record s { loop = writing w value; callers = update s.callers w (awaiting value) })
  write :
      (w : ℕ) {value : String} (err : Option String)
      → s.loop ≡ writing w value
      → Serve s (record s {
        loop = answering w value err;
        written = s.written ++ record { caller = w; payload = value; err = err } ∷ [];
      })
  answer :
      (w : ℕ) {value written : String} {err : Option String}
      → s.loop ≡ answering w written err
      → s.callers w ≡ awaiting value
      → Serve s (record s {
        loop = offering;
        callers = update s.callers w idle;
        returned = s.returned ++ record { caller = w; payload = value; err = err } ∷ [];
      })
  refuse :
      (w : ℕ) {value : String}
      → s.loop ≡ ended
      → s.callers w ≡ calling value
      → Serve s (record s { callers = update s.callers w idle; refused = s.refused ++ w ∷ [] })

-- The other steps: Run, a call, the cancelled context, and its turn in the select.
pub data Step (s : WebsocketWriteProxy) : WebsocketWriteProxy → Type 0 where
  serve : {t : WebsocketWriteProxy} → Serve s t → Step s t
  run : s.loop ≡ unstarted → Step s (record s { loop = offering })
  call :
      (w : ℕ) (value : String)
      → s.callers w ≡ idle
      → Step s (record s { callers = update s.callers w (calling value) })
  cancel : Step s (record s { cancelled = true })
  stop : s.loop ≡ offering → s.cancelled ≡ true → Step s (record s { loop = ended })

pub data Reach : WebsocketWriteProxy → Type 0 where
  start : Reach new_websocket_write_proxy
  later : {s t : WebsocketWriteProxy} → Reach s → Step s t → Reach t
