-- ===== src/Agent/Reconnect/Late.antt =====
-- webrtc-agents/pkg/ws_runner/websocket.go, Run: when a runner and its connections panic.
use webrtc_chat.Prelude.{
  ℕ, zero, suc, String, Bool, true, false, ◌≡◌, refl, none, some, List, [], ◌∷◌, Outcome, done,
  panic, closed_channel, ◌>>=◌, ◌&&◌, ◌↔◌, inl, inr, get_elem?, Bool-cases, Option-cases, arith,
}
use webrtc_chat.Payloads.{MessagePayload}
use webrtc_chat.Agent.Runner.{
  Loop, start_messages_loop, Turn, read, deliver, fail_read, report_read, finish, forward,
  take_turn, take_turns, writer_ended, read_failed,
}
use webrtc_chat.Agent.Runner.Panics.{take_turn-panic_iff}
use webrtc_chat.Agent.Reconnect.{
  WebSocketRunner, Phase, returned, Run, fresh, connected, Event, dial, in_loop, leave, dial_turn,
  sends, is_returned, loop_turn, turn_at, leave_turn, run_turn, run_turns,
}
use webrtc_chat.Agent.Reconnect.Reached.{Reached, run_turns-Reached}

-- For every message without an echo, and every error that ends the connection right after it: if
-- the message is delivered to the channel and the runner, which does not reconnect, sees the error and
-- returns before the message is passed on, passing it on panics.
pub late_message_panics :
    (c : WebSocketRunner) (getenv : String → String) (m : MessagePayload) (e : String)
    → c.reconnect_on_disconnect ≡ false
    → m.echo ≡ none
    → run_turns c
        (dial getenv connected
          ∷ in_loop 0 (read m)
          ∷ in_loop 0 deliver
          ∷ in_loop 0 (fail_read e)
          ∷ in_loop 0 report_read
          ∷ in_loop 0 finish
          ∷ leave
          ∷ in_loop 0 forward
          ∷ [])
        fresh
      ≡ panic closed_channel
unfolding run_turns run_turn dial_turn turn_at loop_turn leave_turn take_turn
late_message_panics c getenv m e once plain = rw (plain, once) refl

bind-panic :
    {A B : Type 0} (m : Outcome A) (f : A → B)
    → (m >>= λ a. done (f a)) ≡ panic closed_channel
    → m ≡ panic closed_channel
bind-panic (done a) f h = absurd (cc h)
bind-panic (panic e) f h = cc h

-- A turn that panics is the turn of one of the connections.
turn_at-panic :
    (closed : Bool) (k : ℕ) (t : Turn) (ls : List Loop)
    → turn_at closed k t ls ≡ panic closed_channel
    → (l : Loop) × (get_elem? ls k ≡ some l) × (loop_turn closed t l ≡ panic closed_channel)
unfolding turn_at
turn_at-panic closed k t [] h = absurd (cc h)
turn_at-panic closed zero t (l ∷ ls) h =
    (l, refl, bind-panic (loop_turn closed t l) (λ l'. l' ∷ ls) h)
turn_at-panic closed (suc k) t (l ∷ ls) h =
    turn_at-panic closed k t ls (bind-panic (turn_at closed k t ls) (λ ls'. l ∷ ls') h)

panic-turn_at :
    (closed : Bool) (k : ℕ) (t : Turn) (ls : List Loop) {l : Loop}
    → get_elem? ls k ≡ some l
    → loop_turn closed t l ≡ panic closed_channel
    → turn_at closed k t ls ≡ panic closed_channel
unfolding turn_at
panic-turn_at closed k t [] at h = absurd (cc at)
panic-turn_at closed zero t (l ∷ ls) at h = cc (at, h)
panic-turn_at closed (suc k) t (l ∷ ls) at h = rw (panic-turn_at closed k t ls at h) refl

sends-some : (t : Turn) (l : Loop) → sends t l ≡ true → (m : MessagePayload) × (l.data_ch ≡ some m)
sends-some forward l h = elim (Option-cases l.data_ch) [
  | inl e ↦ absurd (ground arith)
  | inr some_m ↦ some_m
]
sends-some t l h = absurd (cc h)

is_returned-true : (p : Phase) → is_returned p ≡ true → p ≡ returned
is_returned-true returned h = refl
is_returned-true p h = absurd (cc h)

-- A connection whose writer has ended before its reader can report an error, or with a message in its
-- channel when the runner has returned.
pub data Doomed (s : Run) (l : Loop) : Type 0 where
  unreported : (e : String) → l.writer ≡ writer_ended → l.reader ≡ read_failed e → Doomed s l
  unsent : (m : MessagePayload) → s.phase ≡ returned → l.data_ch ≡ some m → Doomed s l

loop_turn-Doomed :
    (s : Run) (t : Turn) (l : Loop)
    → (ts : List Turn) × (take_turns ts start_messages_loop ≡ done l)
    → loop_turn (is_returned s.phase) t l ≡ panic closed_channel
    → Doomed s l
unfolding loop_turn
loop_turn-Doomed s t l (ts, reached) h = elim (Bool-cases (is_returned s.phase && sends t l)) [
  | inl late ↦
      let (m, waiting) = sends-some t l (ground (arith, late)) in
      unsent m (is_returned-true s.phase (ground (arith, late))) waiting
  | inr free ↦
      let (ended, (e, failed)) = (take_turn-panic_iff ts l reached).0 (t, cc (free, h)) in
      unreported e ended failed
]

Doomed-panics :
    (s : Run) (l : Loop)
    → (ts : List Turn) × (take_turns ts start_messages_loop ≡ done l)
    → Doomed s l
    → (t : Turn) × (loop_turn (is_returned s.phase) t l ≡ panic closed_channel)
unfolding loop_turn
Doomed-panics s l (ts, reached) (unreported e ended failed) =
    let (t, h) = (take_turn-panic_iff ts l reached).1 (ended, (e, failed)) in
    (
      t,
      elim (Bool-cases (is_returned s.phase && sends t l)) [
        | inl late ↦ cc late
        | inr free ↦ cc (free, h)
      ],
    )
Doomed-panics s l reached (unsent m over waiting) = (forward, rw (over, waiting) refl)

-- In every state that the runner and the goroutines of its connections reach, a turn panics exactly
-- when, in one of the connections, the last one or an earlier one, the writer has ended while the
-- reader has an error to report, or a message still waits to be passed on and the runner has
-- returned.
pub run_turn-panic_iff :
    (c : WebSocketRunner) (es : List Event) (s : Run)
    → run_turns c es fresh ≡ done s
    → ((e : Event) × (run_turn c e s ≡ panic closed_channel))
      ↔ ((k : ℕ) × (l : Loop) × (get_elem? s.loops k ≡ some l) × Doomed s l)
unfolding run_turn
run_turn-panic_iff c es s reached =
    let r = run_turns-Reached c es fresh s reached (λ k l at. absurd (cc at)) in
    (
      λ p. panicked r p.0 p.1,
      λ (k, l, at, doomed).
          let (t, h) = Doomed-panics s l (r k l at) doomed in
          (in_loop k t, rw (panic-turn_at (is_returned s.phase) k t s.loops at h) refl),
    )
  where
    panicked :
        Reached s.loops
        → (e : Event) → run_turn c e s ≡ panic closed_channel
        → (k : ℕ) × (l : Loop) × (get_elem? s.loops k ≡ some l) × Doomed s l
    panicked r (in_loop k t) h =
        let (l, at, late) = turn_at-panic (is_returned s.phase) k t s.loops (
          bind-panic (turn_at (is_returned s.phase) k t s.loops) (λ ls. record s { loops = ls })
            h) in
        (k, l, at, loop_turn-Doomed s t l (r k l at) late)
    panicked r e h = absurd (cc h)
