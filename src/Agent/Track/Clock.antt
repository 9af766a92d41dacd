-- ===== src/Agent/Track/Clock.antt =====
-- webrtc-agents/pkg/tracks/handle.go: the numbers of the packets of a stream.
use webrtc_chat.Prelude.{
  ℕ, zero, suc, ◌+◌, ◌*◌, ◌%◌, ◌^◌, ◌≤◌, ◌<◌, Bool, true, false, ◌≡◌, refl, ◌∙◌, ap, sym, some,
  List, [], ◌∷◌, ◌++◌, inl, inr, arith, Bool-cases, Option-cases, length, length-append, get_elem?,
  get_elem?-append_cases,
}
use webrtc_chat.Agent.Ogg.{Header, Packet}
use webrtc_chat.Agent.Track.{
  Generator, Stream, Event, tick, stop, encode_and_send, pre_populate, stream_loop, start_streaming,
  header_of,
}

-- The ticks before the stop.
abbrev pub ticks : List Event → ℕ
ticks [] = 0
ticks (stop ∷ events) = 0
ticks (tick ∷ events) = suc (ticks events)

module _ {G : Type 0} (get_packet : Generator G) (broken : List Packet → Bool)
    (ssrc payload_type samples_per_packet sequence_number timestamp : ℕ)
    (faithful : (g g' : G) (h : Header) (p : Packet)
      → get_packet g h ≡ (g', some p)
      → p.header ≡ h) where
  -- The header of the packet with this number in the stream, from 0.
  abbrev pub header_at : ℕ → Header
  header_at n = record {
    ssrc = ssrc;
    payload_type = payload_type;
    sequence_number = (sequence_number + n) % 65536;
    timestamp = (timestamp + n * samples_per_packet) % 2 ^ 32;
  }

  record IsNumbered (s : Stream G) : Type 0 where
    next_number : s.sequence_number ≡ (sequence_number + length s.written) % 65536
    next_time : s.timestamp ≡ (timestamp + length s.written * samples_per_packet) % 2 ^ 32
    headers : (n : ℕ) (p : Packet) → get_elem? s.written n ≡ some p → p.header ≡ header_at n

  send : Stream G → Stream G × Bool
  send = encode_and_send get_packet broken ssrc payload_type samples_per_packet

  abbrev advance : Stream G → G → Packet → Stream G
  advance s g' p = record {
    generator = g';
    sequence_number = (s.sequence_number + 1) % 65536;
    timestamp = (s.timestamp + samples_per_packet % 2 ^ 32) % 2 ^ 32;
    written = s.written ++ p ∷ [];
  }

  -- A packet more, with the next numbers.
  append-IsNumbered :
      (s : Stream G) (g' : G) (p : Packet)
      → IsNumbered s
      → p.header ≡ header_of get_packet broken ssrc payload_type samples_per_packet s
      → IsNumbered (advance s g' p)
  append-IsNumbered s g' p v own =
      let grown : length (s.written ++ p ∷ []) ≡ suc (length s.written) =
        omega (arith, length-append s.written (p ∷ [])) in
      let more : length (s.written ++ p ∷ []) * samples_per_packet
          ≡ length s.written * samples_per_packet + samples_per_packet =
        ap (λ (k : ℕ). k * samples_per_packet) grown ∙ grind arith in
      record {
        next_number = omega (arith, v.next_number, grown);
        next_time = omega (arith, v.next_time, more);
        headers = λ n q at. elim (get_elem?-append_cases s.written p n at) [
          | inl old ↦ v.headers n q old
          | inr (end, same) ↦
              ap (λ (t : Packet). t.header) (sym same)
              ∙ own
              ∙ ground (arith, v.next_number, v.next_time)
        ];
      }

  -- The two ends of encodeAndSend.
  data Sending (s : Stream G) (r : Stream G × Bool) : Type 0 where
    failed : (g' : G) → r ≡ (record s { generator = g' }, false) → Sending s r
    sent :
        (g' : G) (p : Packet)
        → p.header ≡ header_of get_packet broken ssrc payload_type samples_per_packet s
        → r ≡ (advance s g' p, true)
        → Sending s r

  send-Sending : (s : Stream G) → Sending s (send s)
  unfolding send encode_and_send
  send-Sending s =
      let h = header_of get_packet broken ssrc payload_type samples_per_packet s in
      let made = get_packet s.generator h in
      elim (Option-cases made.1) [
        | inl e ↦ failed made.0 (rw (e, send, encode_and_send) refl)
        | inr (p, e) ↦ elim (Bool-cases (broken s.written)) [
          | inl b ↦ failed made.0 (rw (e, send, encode_and_send) (rw b refl))
          | inr b ↦
              sent made.0 p (faithful s.generator made.0 h p (ap (λ o. (made.0, o)) e))
                (rw (e, send, encode_and_send) (rw b refl))
        ]
      ]

  other_generator :
      (s : Stream G) (g' : G) → IsNumbered s → IsNumbered (record s { generator = g' })
  other_generator s g' v = record {
    next_number = v.next_number;
    next_time = v.next_time;
    headers = v.headers;
  }

  -- Numbered, with at most this many packets more.
  abbrev Reaches : Stream G → ℕ → Stream G → Type 0
  Reaches s n s' = IsNumbered s' × (length s'.written ≤ length s.written + n)

  pre_populate-Reaches :
      (n : ℕ) (s : Stream G)
      → IsNumbered s
      → Reaches s n (pre_populate get_packet broken ssrc payload_type samples_per_packet n s).0
  unfolding pre_populate send
  pre_populate-Reaches zero s v = (v, omega arith)
  pre_populate-Reaches (suc n) s v = elim (send-Sending s) [
    | failed g' e ↦ rw e (other_generator s g' v, omega arith)
    | sent g' p own e ↦
        let v' = append-IsNumbered s g' p v own in
        let (w, short) = pre_populate-Reaches n (advance s g' p) v' in
        rw e (w, omega (arith, short, length-append s.written (p ∷ [])))
  ]

  stream_loop-Reaches :
      (events : List Event) (s : Stream G)
      → IsNumbered s
      → Reaches s
          (ticks events)
          (stream_loop get_packet broken ssrc payload_type samples_per_packet events s)
  unfolding stream_loop send
  stream_loop-Reaches [] s v = (v, omega arith)
  stream_loop-Reaches (stop ∷ events) s v = (v, omega arith)
  stream_loop-Reaches (tick ∷ events) s v = elim (send-Sending s) [
    | failed g' e ↦ rw e (other_generator s g' v, omega arith)
    | sent g' p own e ↦
        let v' = append-IsNumbered s g' p v own in
        let (w, short) = stream_loop-Reaches events (advance s g' p) v' in
        rw e (w, omega (arith, short, length-append s.written (p ∷ [])))
  ]

  first_stream :
      (g : G)
      → sequence_number < 65536
      → timestamp < 2 ^ 32
      → IsNumbered (record {
        generator = g;
        sequence_number = sequence_number;
        timestamp = timestamp;
        written = [];
      })
  first_stream g small early = record {
    next_number = omega arith;
    next_time = omega arith;
    headers = λ n p at. absurd (cc);
  }

  -- If packets carry the header that their generator is asked for: whatever fails and whenever it is
  -- stopped, the n-th packet that a stream writes, from 0, has the n-th sequence number after the
  -- first, modulo 2^16, and the time of the first and n packets, modulo 2^32; and there are at most
  -- ten packets more than there were ticks.
  pub start_streaming_numbered :
      (g : G) (events : List Event)
      → sequence_number < 65536
      → timestamp < 2 ^ 32
      → let s =
          start_streaming get_packet broken ssrc payload_type samples_per_packet g sequence_number
            timestamp events in
        ((n : ℕ) (p : Packet) → get_elem? s.written n ≡ some p → p.header ≡ header_at n)
        × (length s.written ≤ 10 + ticks events)
  unfolding start_streaming
  start_streaming_numbered g events small early =
      let s₀ : Stream G = record {
        generator = g;
        sequence_number = sequence_number;
        timestamp = timestamp;
        written = [];
      } in
      let r = pre_populate get_packet broken ssrc payload_type samples_per_packet 10 s₀ in
      let (v, short) = pre_populate-Reaches 10 s₀ (first_stream g small early) in
      elim (Bool-cases r.1) [
        | inl ok ↦
            let (w, few) = stream_loop-Reaches events r.0 v in
            rw ok (w.headers, omega (arith, few, short))
        | inr failing ↦ rw failing (v.headers, omega (arith, short))
      ]

-- A generator and a writer that never fail.
module _ {G : Type 0} (get_packet : Generator G) (broken : List Packet → Bool)
    (ssrc payload_type samples_per_packet : ℕ)
    (always : (g : G) (h : Header) → (p : Packet) × ((get_packet g h).1 ≡ some p))
    (open_writer : (w : List Packet) → broken w ≡ false) where
  send_always :
      (s : Stream G)
      → let r = encode_and_send get_packet broken ssrc payload_type samples_per_packet s in
        (r.1 ≡ true) × (length r.0.written ≡ suc (length s.written))
  unfolding encode_and_send
  send_always s =
      let h = header_of get_packet broken ssrc payload_type samples_per_packet s in
      let (p, e) = always s.generator h in
      rw (e, encode_and_send)
        (rw (open_writer s.written) (refl, omega (arith, length-append s.written (p ∷ []))))

  pre_populate_all :
      (n : ℕ) (s : Stream G)
      → let r = pre_populate get_packet broken ssrc payload_type samples_per_packet n s in
        (r.1 ≡ true) × (length r.0.written ≡ length s.written + n)
  unfolding pre_populate
  pre_populate_all zero s = (refl, omega arith)
  pre_populate_all (suc n) s =
      let s' = encode_and_send get_packet broken ssrc payload_type samples_per_packet s in
      let (ok, one) = send_always s in
      let (all_ok, rest) = pre_populate_all n s'.0 in rw ok (all_ok, omega (arith, one, rest))

  stream_loop_all :
      (events : List Event) (s : Stream G)
      → length (stream_loop get_packet broken ssrc payload_type samples_per_packet events s).written
        ≡ length s.written + ticks events
  unfolding stream_loop
  stream_loop_all [] s = omega arith
  stream_loop_all (stop ∷ events) s = omega arith
  stream_loop_all (tick ∷ events) s =
      let s' = encode_and_send get_packet broken ssrc payload_type samples_per_packet s in
      let (ok, one) = send_always s in rw ok (omega (arith, one, stream_loop_all events s'.0))

  -- If neither a generator nor a write ever fails, a stream writes ten packets ahead and one for each
  -- tick before it is stopped.
  pub start_streaming_complete :
      (g : G) (sequence_number timestamp : ℕ) (events : List Event)
      → length
          (start_streaming get_packet broken ssrc payload_type samples_per_packet g sequence_number
            timestamp events).written
        ≡ 10 + ticks events
  unfolding start_streaming
  start_streaming_complete g sequence_number timestamp events =
      let s₀ : Stream G = record {
        generator = g;
        sequence_number = sequence_number;
        timestamp = timestamp;
        written = [];
      } in
      let (ok, ten) = pre_populate_all 10 s₀ in
      rw ok (
        omega (
          arith,
          ten,
          stream_loop_all events
              (pre_populate get_packet broken ssrc payload_type samples_per_packet 10 s₀).0,
        ))
