-- ===== src/Agent/Runner/Panics.antt =====
-- webrtc-agents/pkg/ws_runner/websocket.go: when the loops of a connection panic.
use webrtc_chat.Prelude.{
  Bool, true, false, ◌≡◌, refl, sym, ◌∙◌, ap, String, none, some, List, [], ◌∷◌, ◌↔◌, done, panic,
  closed_channel, Bool-cases, inl, inr, arith,
}
use webrtc_chat.Payloads.{MessagePayload}
use webrtc_chat.Agent.Runner.Runs.{turns_keep}
use webrtc_chat.Agent.Runner.{
  see_end, Reader, reading, delivering, read_failed, reader_ended, Writer, selecting, write_failed,
  writer_ended, Loop, start_messages_loop, write_ping, write_item, report_read_error, Turn, read,
  fail_read, deliver, report_read, cancel, transmit, tick, see_reader, report_write, finish,
  read_turn, write_turn, finish_run, take_turn, take_turns,
}

abbrev pub has_ended : Writer → Bool
has_ended selecting = false
has_ended (write_failed e) = false
has_ended writer_ended = true

-- errCh is closed exactly when the writer has ended.
abbrev Closes : Loop → Type 0
Closes l = l.err_ch_closed ≡ has_ended l.writer

see_end-Closes : (r : Reader) (l : Loop) → Closes l → Closes (see_end r l)
unfolding see_end
see_end-Closes reader_ended l v = refl
see_end-Closes r l v = v

write_turn-Closes :
    (w : Writer) (t : Turn) (l : Loop) → l.writer ≡ w → Closes l → Closes (write_turn w t l)
unfolding write_turn write_ping write_item
write_turn-Closes selecting cancel l e v = refl
write_turn-Closes selecting (transmit item failed) l e v = ground arith
write_turn-Closes selecting (tick now failed) l e v = ground arith
write_turn-Closes selecting see_reader l e v = see_end-Closes l.reader l v
write_turn-Closes (write_failed err) report_write l e v = ground arith
write_turn-Closes w t l e v = v

reached-Closes : (ts : List Turn) (l : Loop) → take_turns ts start_messages_loop ≡ done l → Closes l
reached-Closes ts l reached =
    turns_keep Closes (λ l l' same v. same.1 ∙ v ∙ ap has_ended (sym same.0))
      (λ t l v. write_turn-Closes l.writer t l refl v) ts start_messages_loop l reached refl

read_panic :
    (r : Reader) (t : Turn) (l : Loop)
    → read_turn r t l ≡ panic closed_channel
    → ((e : String) × (r ≡ read_failed e)) × (l.err_ch_closed ≡ true)
unfolding read_turn report_read_error
read_panic (read_failed e) report_read l h = elim (Bool-cases l.err_ch_closed) [
  | inl closed ↦ ((e, refl), closed)
  | inr opened ↦ absurd (ground arith)
]
read_panic reading (read m) l h = absurd (cc h)
read_panic reading (fail_read e) l h = absurd (cc h)
read_panic (delivering m) deliver l h = absurd (cc h)
read_panic r t l h = absurd (cc h)

-- A turn that panics is a report of the reader.
panic_turn :
    (t : Turn) (l : Loop)
    → take_turn t l ≡ panic closed_channel
    → ((e : String) × (l.reader ≡ read_failed e)) × (l.err_ch_closed ≡ true)
unfolding take_turn
panic_turn (read m) l h = read_panic l.reader (read m) l h
panic_turn (fail_read e) l h = read_panic l.reader (fail_read e) l h
panic_turn deliver l h = read_panic l.reader deliver l h
panic_turn report_read l h = read_panic l.reader report_read l h
panic_turn t l h = absurd (cc h)

has_ended-true : (w : Writer) → has_ended w ≡ true → w ≡ writer_ended
has_ended-true selecting h = absurd (cc h)
has_ended-true (write_failed e) h = absurd (cc h)
has_ended-true writer_ended h = refl

-- In every state that a connection reaches, a turn of a goroutine panics exactly when the writer has
-- ended and the reader has an error to report.
pub take_turn-panic_iff :
    (ts : List Turn) (l : Loop)
    → take_turns ts start_messages_loop ≡ done l
    → ((t : Turn) × (take_turn t l ≡ panic closed_channel))
      ↔ ((l.writer ≡ writer_ended) × ((e : String) × (l.reader ≡ read_failed e)))
unfolding take_turn read_turn report_read_error
take_turn-panic_iff ts l reached =
    let v = reached-Closes ts l reached in
    (
      λ p.
          let (failed, closed) = panic_turn p.0 l p.1 in
          (has_ended-true l.writer (sym v ∙ closed), failed),
      λ late. (report_read, rw (late.1.1, report_read_error, v, late.0) refl),
    )

-- From every state with both goroutines at work and errCh empty, a cancelled context or a failed
-- write, then the close of the connection by the runner, the error that the reader gets of it, and its
-- report end in a panic.
pub shutdown_panics :
    (l : Loop) (e : String)
    → l.writer ≡ selecting
    → l.reader ≡ reading
    → l.err_ch ≡ none
    → l.finished ≡ false
    → (take_turns (cancel ∷ finish ∷ fail_read e ∷ report_read ∷ []) l ≡ panic closed_channel)
      × ((item : MessagePayload) (err : String)
          → take_turns
              (transmit item (some err) ∷ report_write ∷ finish ∷ fail_read e ∷ report_read ∷ [])
              l
            ≡ panic closed_channel)
unfolding take_turns take_turn read_turn write_turn write_item finish_run report_read_error
shutdown_panics l e at_work at_read empty running = (
  rw (at_work, running, empty, at_read) refl,
  λ item err. rw (at_work, empty, running, at_read) refl,
)
