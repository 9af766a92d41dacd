-- ===== src/Agent/Runner/Pings.antt =====
-- webrtc-agents/pkg/ws_runner/websocket.go: the numbers of the pings on a connection.
use Prim.Native.String.{◌++◌ as str_append}
use webrtc_chat.Prelude.{
  ℕ, zero, suc, ◌+◌, ◌%◌, ◌^◌, String, ◌≡◌, refl, sym, ◌∙◌, ap, none, some, List, [], ◌∷◌, ◌++◌,
  done, is_some, Bool-cases, inl, inr, arith,
}
use mathlib.Core.List.{append-nil}
use webrtc_chat.Decimal.{decimal}
use webrtc_chat.Agent.Runner.Runs.{turns_keep}
use webrtc_chat.Agent.Runner.{
  see_end, ping_of, Reader, reader_ended, Writer, selecting, write_failed, Frame, sent, pinged,
  Loop, start_messages_loop, end_writer, write_ping, write_item, Turn, cancel, transmit, tick,
  see_reader, report_write, write_turn, take_turns,
}

-- The sequence numbers and the correlation ids of the pings that are written.
abbrev pub pings : List Frame → List (ℕ × String)
pings [] = []
pings (sent m ∷ frames) = pings frames
pings (pinged p ∷ frames) = (p.seq_id, p.correlation_id) ∷ pings frames

-- The first k numbers of a uint64 after 0, with the ids that are made of them.
abbrev pub numbers : ℕ → List (ℕ × String)
numbers zero = []
numbers (suc k) =
    numbers k ++ ((k + 1) % 2 ^ 64, str_append "ping-" (decimal ((k + 1) % 2 ^ 64))) ∷ []

pings-append :
    (frames : List Frame) (f : Frame) → pings (frames ++ f ∷ []) ≡ pings frames ++ pings (f ∷ [])
pings-append [] f = refl
pings-append (sent m ∷ frames) f = pings-append frames f
pings-append (pinged p ∷ frames) f =
    ap (λ t. (p.seq_id, p.correlation_id) ∷ t) (pings-append frames f)

record Counted (l : Loop) : Type 0 where
  k : ℕ
  counted : pings l.written ≡ numbers k
  next : l.writer ≡ selecting → l.seq_id ≡ k % 2 ^ 64

ended-Counted : (l : Loop) → Counted l → Counted (end_writer l)
ended-Counted l v = record { k = v.k; counted = v.counted; next = λ h. absurd (cc h) }

see_end-Counted : (r : Reader) (l : Loop) → Counted l → Counted (see_end r l)
unfolding see_end
see_end-Counted reader_ended l v = ended-Counted l v
see_end-Counted r l v = v

write_turn-Counted :
    (w : Writer) (t : Turn) (l : Loop) → l.writer ≡ w → Counted l → Counted (write_turn w t l)
unfolding write_turn write_ping write_item
write_turn-Counted selecting cancel l e v = ended-Counted l v
write_turn-Counted selecting (transmit item none) l e v = record {
  k = v.k;
  counted = pings-append l.written (sent item) ∙ append-nil (pings l.written) ∙ v.counted;
  next = v.next;
}
write_turn-Counted selecting (transmit item (some err)) l e v = record {
  k = v.k;
  counted = v.counted;
  next = λ h. absurd (cc h);
}
write_turn-Counted selecting (tick now none) l e v =
    let same : (l.seq_id + 1) % 2 ^ 64 ≡ (v.k + 1) % 2 ^ 64 = omega (arith, v.next e) in
    record {
      k = suc v.k;
      counted =
          pings-append l.written (pinged (ping_of ((l.seq_id + 1) % 2 ^ 64) now))
          ∙ rw (same, v.counted) refl;
      next = λ h. same ∙ omega arith;
    }
write_turn-Counted selecting (tick now (some err)) l e v = record {
  k = v.k;
  counted = v.counted;
  next = λ h. absurd (cc h);
}
write_turn-Counted selecting see_reader l e v = see_end-Counted l.reader l v
write_turn-Counted (write_failed err) report_write l e v = elim (Bool-cases (is_some l.err_ch)) [
  | inl full ↦ rw (full, write_turn) v
  | inr free ↦
      rw (free, write_turn) (record { k = v.k; counted = v.counted; next = λ h. absurd (cc h) })
]
write_turn-Counted w t l e v = v

-- In every state that a connection reaches, the pings that were written are numbered by a uint64 that
-- counts from 1 without a gap, and their correlation ids are made of the numbers.
pub pings_numbered :
    (ts : List Turn) (l : Loop)
    → take_turns ts start_messages_loop ≡ done l
    → (k : ℕ) × (pings l.written ≡ numbers k)
pings_numbered ts l reached =
    let v : Counted l =
      turns_keep Counted
        (λ l l' same v. record {
          k = v.k;
          counted = ap pings same.2 ∙ v.counted;
          next = λ h. same.3 ∙ v.next (sym same.0 ∙ h);
        })
        (λ t l v. write_turn-Counted l.writer t l refl v) ts start_messages_loop l reached
        (record { k = 0; counted = refl; next = λ h. refl }) in
    (v.k, v.counted)
