-- ===== src/Agent/Duplicate/Consumers.antt =====
-- webrtc-agents/pkg/tracks/duplicate/duplicate.go: what a consumer is written of the packets that are
-- forwarded to it.
use webrtc_chat.Prelude.{
  ℕ, ◌+◌, ◌-◌, ◌≤◌, Bool, true, false, ◌≡◌, refl, sym, ◌∙◌, ap, List, [], ◌∷◌, ◌++◌, ◌⊎◌, inl, inr,
  arith, Bool-cases, ltb, length, length-append, if◌then◌else◌,
}
use mathlib.Core.List.{append_assoc, append-nil}
use webrtc_chat.Agent.Duplicate.{DownstreamConsumer, send, write_next, take_packet, close}

-- The first list is the second with some items left out.
pub data LeavesOut {A : Type 0} : List A → List A → Type 0 where
  nil : LeavesOut [] []
  keep : {xs ys : List A} (x : A) → LeavesOut xs ys → LeavesOut (x ∷ xs) (x ∷ ys)
  skip : {xs ys : List A} (y : A) → LeavesOut xs ys → LeavesOut xs (y ∷ ys)

module _ {A : Type 0} where
  keep_last : {xs ys : List A} (a : A) → LeavesOut xs ys → LeavesOut (xs ++ a ∷ []) (ys ++ a ∷ [])
  keep_last a nil = keep a nil
  keep_last a (keep x h) = keep x (keep_last a h)
  keep_last a (skip y h) = skip y (keep_last a h)

  skip_last : {xs ys : List A} (a : A) → LeavesOut xs ys → LeavesOut xs (ys ++ a ∷ [])
  skip_last a nil = skip a nil
  skip_last a (keep x h) = keep x (skip_last a h)
  skip_last a (skip y h) = skip y (skip_last a h)

-- What happens to a consumer.
pub data Event (P : Type 0) : Type 0 where
  offered : P → Event P
  turn closes : Event P

-- A bounded queue, as far as it is seen from outside: the packets that it accepted, how many of them
-- it delivered, and whether it is over.
pub record Ideal (P : Type 0) : Type 0 where
  pub accepted : List P
  pub delivered : ℕ
  pub over : Bool

module _ {P : Type 0} where
  abbrev pub opened : Ideal P
  opened = record { accepted = []; delivered = 0; over = false }

  -- The next packet is delivered, if one waits.
  unfoldable hand_over : Ideal P → Ideal P
  hand_over q =
      if ltb q.delivered (length q.accepted) then record q { delivered = q.delivered + 1 } else q

  -- A packet is accepted if fewer than the size wait; a turn delivers the next one that waits, unless
  -- it is over; and the close delivers all.
  unfoldable pub expect : ℕ → Event P → Ideal P → Ideal P
  unfolding hand_over
  expect buffer_size (offered pkt) q =
      if ltb (length q.accepted - q.delivered) buffer_size
      then record q { accepted = q.accepted ++ pkt ∷ [] }
      else q
  expect buffer_size turn q = if q.over then q else hand_over q
  expect buffer_size closes q = record q { delivered = length q.accepted; over = true }

  unfoldable pub expect_all : ℕ → List (Event P) → Ideal P → Ideal P
  unfolding expect
  expect_all buffer_size [] q = q
  expect_all buffer_size (e ∷ es) q = expect_all buffer_size es (expect buffer_size e q)

  -- A consumer, seen as a queue.
  abbrev pub seen : DownstreamConsumer P → Ideal P
  seen c = record {
    accepted = c.written ++ c.packets;
    delivered = length c.written;
    over = c.stopped;
  }

  unfoldable pub happen : ℕ → Event P → DownstreamConsumer P → DownstreamConsumer P
  unfolding send write_next close
  happen buffer_size (offered pkt) c = (send buffer_size pkt c).0
  happen buffer_size turn c = write_next c
  happen buffer_size closes c = close c

  unfoldable pub consume : ℕ → List (Event P) → DownstreamConsumer P → DownstreamConsumer P
  unfolding happen
  consume buffer_size [] c = c
  consume buffer_size (e ∷ es) c = consume buffer_size es (happen buffer_size e c)

  abbrev pub offers : List (Event P) → List P
  offers [] = []
  offers (offered pkt ∷ es) = pkt ∷ offers es
  offers (turn ∷ es) = offers es
  offers (closes ∷ es) = offers es

  abbrev pub fresh : DownstreamConsumer P
  fresh = record { packets = []; written = []; stopped = false }

  abbrev Orderly : ℕ → List P → DownstreamConsumer P → Type 0
  Orderly buffer_size sent c =
      LeavesOut (c.written ++ c.packets) sent × (length c.packets ≤ buffer_size)

  -- The packets of an event.
  abbrev news : Event P → List P
  news (offered pkt) = pkt ∷ []
  news turn = []
  news closes = []

  take_packet-Orderly :
      (packets written sent : List P) (stopped : Bool) (buffer_size : ℕ)
      → let c : DownstreamConsumer P = record {
        packets = packets;
        written = written;
        stopped = stopped;
      } in
        LeavesOut (written ++ packets) sent × (length packets ≤ buffer_size)
        → Orderly buffer_size sent (take_packet packets c)
  take_packet-Orderly [] written sent stopped buffer_size v = v
  take_packet-Orderly (p ∷ packets) written sent stopped buffer_size (order, few) =
      (rw (append_assoc written (p ∷ []) packets) order, omega (arith, few))

  happen-Orderly :
      (buffer_size : ℕ) (e : Event P) (c : DownstreamConsumer P) (sent : List P)
      → Orderly buffer_size sent c
      → Orderly buffer_size (sent ++ news e) (happen buffer_size e c)
  unfolding happen send write_next close
  happen-Orderly buffer_size (offered pkt) c sent (order, few) =
      elim (Bool-cases (ltb (length c.packets) buffer_size)) [
        | inl room ↦
            rw (room, happen, send)
              (
                rw (← (append_assoc c.written c.packets (pkt ∷ []))) (keep_last pkt order),
                ground (arith, length-append c.packets (pkt ∷ [])),
              )
        | inr full ↦ rw (full, happen, send) (skip_last pkt order, few)
      ]
  happen-Orderly buffer_size turn c sent v = rw (append-nil sent) (elim (Bool-cases c.stopped) [
    | inl over ↦ rw (over, happen, write_next) v
    | inr running ↦
        let taken : write_next c ≡ take_packet c.packets c =
          ap (λ b. if b then c else take_packet c.packets c) running in
        rw taken (take_packet-Orderly c.packets c.written sent c.stopped buffer_size v)
  ])
  happen-Orderly buffer_size closes c sent (order, few) =
      rw (append-nil sent) (rw (append-nil (c.written ++ c.packets)) order, omega arith)

  consume-Orderly :
      (buffer_size : ℕ) (es : List (Event P)) (c : DownstreamConsumer P) (sent : List P)
      → Orderly buffer_size sent c
      → Orderly buffer_size (sent ++ offers es) (consume buffer_size es c)
  unfolding consume
  consume-Orderly buffer_size [] c sent v = rw (append-nil sent) v
  consume-Orderly buffer_size (offered pkt ∷ es) c sent v =
      rw (← (append_assoc sent (pkt ∷ []) (offers es)))
        (consume-Orderly buffer_size es _ _ (happen-Orderly buffer_size (offered pkt) c sent v))
  consume-Orderly buffer_size (turn ∷ es) c sent v =
      consume-Orderly buffer_size es _ sent
        (rw (append-nil sent) at (happen-Orderly buffer_size turn c sent v))
  consume-Orderly buffer_size (closes ∷ es) c sent v =
      consume-Orderly buffer_size es _ sent
        (rw (append-nil sent) at (happen-Orderly buffer_size closes c sent v))

  waiting_lem :
      (c : DownstreamConsumer P)
      → length (c.written ++ c.packets) - length c.written ≡ length c.packets
  waiting_lem c = omega (arith, length-append c.written c.packets)

  take_packet-seen :
      (packets written : List P) (stopped : Bool)
      → let c : DownstreamConsumer P = record {
        packets = packets;
        written = written;
        stopped = stopped;
      } in
        seen (take_packet packets c) ≡ hand_over (seen c)
  unfolding hand_over
  take_packet-seen [] written stopped =
      let all : ltb (length written) (length (written ++ [])) ≡ false =
        rw (append-nil written) (ground arith) in
      rw (all, hand_over) refl
  take_packet-seen (p ∷ packets) written stopped =
      let more : ltb (length written) (length (written ++ p ∷ packets)) ≡ true =
        ground (arith, length-append written (p ∷ packets)) in
      rw (more, hand_over, append_assoc written (p ∷ []) packets, length-append written (p ∷ []))
        refl

  happen-seen :
      (buffer_size : ℕ) (e : Event P) (c : DownstreamConsumer P)
      → seen (happen buffer_size e c) ≡ expect buffer_size e (seen c)
  unfolding happen send write_next close expect
  happen-seen buffer_size (offered pkt) c = elim (Bool-cases (ltb (length c.packets) buffer_size)) [
    | inl room ↦
        rw (waiting_lem c, room, happen, send, expect)
          (ap (λ l. record { accepted = l; delivered = length c.written; over = c.stopped })
            (sym (append_assoc c.written c.packets (pkt ∷ []))))
    | inr full ↦ rw (waiting_lem c, full, happen, send, expect) refl
  ]
  happen-seen buffer_size turn c = elim (Bool-cases c.stopped) [
    | inl over ↦ rw (over, happen, write_next, expect) refl
    | inr running ↦
        let taken : write_next c ≡ take_packet c.packets c =
          ap (λ b. if b then c else take_packet c.packets c) running in
        let goes_on : expect buffer_size turn (seen c) ≡ hand_over (seen c) =
          ap (λ b. if b then seen c else hand_over (seen c)) running in
        rw (taken, goes_on) (take_packet-seen c.packets c.written c.stopped)
  ]
  happen-seen buffer_size closes c = rw (append-nil (c.written ++ c.packets)) refl

  consume-seen :
      (buffer_size : ℕ) (es : List (Event P)) (c : DownstreamConsumer P)
      → seen (consume buffer_size es c) ≡ expect_all buffer_size es (seen c)
  unfolding consume expect_all
  consume-seen buffer_size [] c = refl
  consume-seen buffer_size (e ∷ es) c =
      consume-seen buffer_size es (happen buffer_size e c)
      ∙ ap (expect_all buffer_size es) (happen-seen buffer_size e c)

  -- A new consumer does what the bounded queue does, whatever is forwarded to it, whenever its writer
  -- has a turn and whenever it is closed: what it was written, with what waits in its buffer after
  -- that, is what the queue accepted; it was written as many packets as the queue delivered; and it is
  -- stopped when the queue is over. These packets are the forwarded ones in their order with those
  -- left out that came when the buffer was full, and the buffer never holds more than its size. The
  -- next packet is added at the end, unless the buffer is full.
  pub consume_lem :
      (buffer_size : ℕ) (es : List (Event P)) (pkt : P)
      → let c = consume buffer_size es fresh in
        let c' = (send buffer_size pkt c).0 in
        (seen c ≡ expect_all buffer_size es opened)
        × LeavesOut (c.written ++ c.packets) (offers es)
        × (length c.packets ≤ buffer_size)
        × ((c'.written ++ c'.packets ≡ (c.written ++ c.packets) ++ pkt ∷ [])
            ⊎ (length c.packets ≡ buffer_size))
  unfolding send
  consume_lem buffer_size es pkt =
      let c = consume buffer_size es fresh in
      let (order, few) = consume-Orderly buffer_size es fresh [] (nil, omega arith) in
      (
        consume-seen buffer_size es fresh,
        order,
        few,
        elim (Bool-cases (ltb (length c.packets) buffer_size)) [
          | inl room ↦ inl (rw (room, send) (rw (append_assoc c.written c.packets (pkt ∷ [])) refl))
          | inr full ↦ inr (ground arith)
        ],
      )
