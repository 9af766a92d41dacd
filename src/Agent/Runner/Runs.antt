-- ===== src/Agent/Runner/Runs.antt =====
-- webrtc-agents/pkg/ws_runner/websocket.go: only the writer changes what it keeps.
use mathlib.Core.Path.{subst}
use webrtc_chat.Prelude.{◌≡◌, List, [], ◌∷◌, done, >>=-eq-done, arith}
use webrtc_chat.Agent.Runner.{
  Reader, reading, delivering, read_failed, Loop, report_read_error, take_message, Turn, read,
  fail_read, deliver, report_read, cancel, transmit, tick, see_reader, report_write, forward,
  finish, read_turn, write_turn, forward_data, finish_run, take_turn, take_turns,
}

-- The parts of the writer are the same.
abbrev pub Same : Loop → Loop → Type 0
Same l l' =
    (l'.writer ≡ l.writer)
    × (l'.err_ch_closed ≡ l.err_ch_closed)
    × (l'.written ≡ l.written)
    × (l'.seq_id ≡ l.seq_id)

read_turn-Same : (r : Reader) (t : Turn) (l l' : Loop) → read_turn r t l ≡ done l' → Same l l'
unfolding read_turn take_message report_read_error
read_turn-Same reading (read m) l l' h = ground arith
read_turn-Same reading (fail_read e) l l' h = ground arith
read_turn-Same (delivering m) deliver l l' h = ground arith
read_turn-Same (read_failed e) report_read l l' h = ground arith
read_turn-Same r t l l' h = ground arith

module _ (I : Loop → Type 0) (ignores : (l l' : Loop) → Same l l' → I l → I l')
    (writes : (t : Turn) (l : Loop) → I l → I (write_turn l.writer t l)) where
  done_same : {a b : Loop} → done a ≡ done b → I a → I b
  done_same {a} {b} h v = let same : a ≡ b = cc h in subst I same v

  turn_keeps : (t : Turn) (l l' : Loop) → take_turn t l ≡ done l' → I l → I l'
  unfolding take_turn forward_data finish_run
  turn_keeps (read m) l l' h v = ignores l l' (read_turn-Same l.reader (read m) l l' h) v
  turn_keeps (fail_read e) l l' h v = ignores l l' (read_turn-Same l.reader (fail_read e) l l' h) v
  turn_keeps deliver l l' h v = ignores l l' (read_turn-Same l.reader deliver l l' h) v
  turn_keeps report_read l l' h v = ignores l l' (read_turn-Same l.reader report_read l l' h) v
  turn_keeps forward l l' h v = ignores l l' (ground arith) v
  turn_keeps finish l l' h v = ignores l l' (ground arith) v
  turn_keeps cancel l l' h v = done_same h (writes cancel l v)
  turn_keeps (transmit item failed) l l' h v = done_same h (writes (transmit item failed) l v)
  turn_keeps (tick now failed) l l' h v = done_same h (writes (tick now failed) l v)
  turn_keeps see_reader l l' h v = done_same h (writes see_reader l v)
  turn_keeps report_write l l' h v = done_same h (writes report_write l v)

  -- What only depends on the writer's parts and holds after its turns holds after all.
  pub turns_keep : (ts : List Turn) (l l' : Loop) → take_turns ts l ≡ done l' → I l → I l'
  unfolding take_turns
  turns_keep [] l l' h v = done_same h v
  turns_keep (t ∷ ts) l l' h v =
      let (l₁, first, rest) = >>=-eq-done (take_turn t l) (take_turns ts) h in
      turns_keep ts l₁ l' rest (turn_keeps t l l₁ first v)
