-- ===== src/Agent/Reconnect.antt =====
-- webrtc-agents/pkg/ws_runner/websocket.go, Run: the runner dials, registers, waits for the end of the
-- connection, and dials again. The goroutines of an earlier connection may still be at work, so all
-- the connections are kept, the last one first. When the runner returns it closes outputDataCh.
-- An item that the goroutine of dataCh has received and not yet sent still counts as in `data_ch`: it
-- leaves that with the send.
pub mod Reached
pub mod Late
use webrtc_chat.Prelude.{
  ℕ, zero, suc, String, Bool, true, false, Option, none, some, List, [], ◌∷◌, ◌++◌, Outcome, done,
  panic, closed_channel, ◌>>=◌, is_some, ◌&&◌, if◌then◌else◌,
}
use webrtc_chat.Agent.Runner.{
  get_jwt, register_node_name, Loop, start_messages_loop, Turn, forward, take_turn,
}

pub record WebSocketRunner : Type 0 where
  pub node_name : String
  pub jwt_env_name : String
  pub reconnect_on_disconnect : Bool

-- At Dial, at errCh, in the select before it dials again, or returned.
pub data Phase : Type 0 where
  dialing serving pausing returned : Phase

-- `registered` has the names that were registered, the last one last.
pub record Run : Type 0 where
  pub phase : Phase
  pub loops : List Loop
  pub registered : List String

abbrev pub fresh : Run
fresh = record { phase = dialing; loops = []; registered = [] }

-- How Dial and Register end.
pub data Dial : Type 0 where
  refused unregistered : String → Dial
  connected : Dial

-- A turn of the runner, or of a goroutine of a connection; `dial` has the environment.
pub data Event : Type 0 where
  dial : (String → String) → Dial → Event
  in_loop : ℕ → Turn → Event
  leave wake give_up : Event

-- After a connection, or the failure to get one.
abbrev pub disconnected : WebSocketRunner → Run → Run
disconnected c s = record s { phase = if c.reconnect_on_disconnect then pausing else returned }

unfoldable pub dial_turn : WebSocketRunner → (String → String) → Dial → Run → Run
unfolding get_jwt register_node_name
dial_turn c getenv (refused e) s = disconnected c s
dial_turn c getenv (unregistered e) s = disconnected c s
dial_turn c getenv connected s = record s {
  phase = serving;
  loops = start_messages_loop ∷ s.loops;
  registered = s.registered ++ register_node_name (get_jwt getenv c.jwt_env_name) c.node_name ∷ [];
}

-- Whether a turn sends on outputDataCh.
abbrev pub sends : Turn → Loop → Bool
sends forward l = is_some l.data_ch
sends t l = false

abbrev pub is_returned : Phase → Bool
is_returned returned = true
is_returned p = false

unfoldable pub loop_turn : Bool → Turn → Loop → Outcome Loop
unfolding take_turn
loop_turn closed t l = if closed && sends t l then panic closed_channel else take_turn t l

-- A turn in the connection with a number.
unfoldable pub turn_at : Bool → ℕ → Turn → List Loop → Outcome (List Loop)
unfolding loop_turn
turn_at closed k t [] = done []
turn_at closed zero t (l ∷ ls) = loop_turn closed t l >>= λ l'. done (l' ∷ ls)
turn_at closed (suc k) t (l ∷ ls) = turn_at closed k t ls >>= λ ls'. done (l ∷ ls')

-- The runner leaves a connection that it has closed.
unfoldable pub leave_turn : WebSocketRunner → List Loop → Run → Run
leave_turn c [] s = s
leave_turn c (l ∷ ls) s = if l.finished then disconnected c s else s

unfoldable pub run_turn : WebSocketRunner → Event → Run → Outcome Run
unfolding dial_turn turn_at leave_turn
run_turn c (dial getenv d) s = done (elim s.phase [ dialing ↦ dial_turn c getenv d s | _ ↦ s ])
run_turn c (in_loop k t) s =
    turn_at (is_returned s.phase) k t s.loops >>= λ ls. done (record s { loops = ls })
run_turn c leave s = done (elim s.phase [ serving ↦ leave_turn c s.loops s | _ ↦ s ])
run_turn c wake s = done (elim s.phase [ pausing ↦ record s { phase = dialing } | _ ↦ s ])
run_turn c give_up s = done (elim s.phase [ pausing ↦ record s { phase = returned } | _ ↦ s ])

unfoldable pub run_turns : WebSocketRunner → List Event → Run → Outcome Run
unfolding run_turn
run_turns c [] s = done s
run_turns c (e ∷ es) s = run_turn c e s >>= run_turns c es
