-- ===== src/Agent/Patch/Layout.antt =====
-- webrtc-agents/pkg/handlers/stream.go: what Marshal writes, and how it reads back.
use webrtc_chat.Prelude.{
  ℕ, zero, suc, ◌+◌, ◌/◌, ◌%◌, ◌<◌, ◌≡◌, refl, ◌∙◌, ap, Option, none, some, List, [], ◌∷◌, ◌++◌,
  arith, done, ltb, if◌then◌else◌, length, take, drop, length-append, take-append, drop-append,
}
use mathlib.Core.List.{append_assoc, append-nil}
use webrtc_chat.Agent.Patch.{
  MessagePatchOrder, MessagePatchOrderKind, append, replace, kind_byte, make_bytes, copy, copy_at,
  copy_from, put, uint16_bytes, marshal, uint16, read_value, unmarshal_message_patch_order,
}

length-make_bytes : (n : ℕ) → length (make_bytes n) ≡ n
length-make_bytes zero = refl
length-make_bytes (suc n) = ap suc (length-make_bytes n)

copy-make_bytes :
    (src : List ℕ) (k n : ℕ) → n ≡ length src + k → copy (make_bytes n) src ≡ src ++ make_bytes k
unfolding copy
copy-make_bytes [] k zero e = let h : k ≡ 0 = omega (arith, e) in rw h refl
copy-make_bytes [] k (suc n) e = let h : k ≡ suc n = omega (arith, e) in rw h refl
copy-make_bytes (x ∷ src) k zero e = absurd (omega (arith, e))
copy-make_bytes (x ∷ src) k (suc n) e = ap (λ l. x ∷ l) (copy-make_bytes src k n (omega (arith, e)))

-- A write at the end of what is written.
copy_at-append :
    (w src : List ℕ) (k n offset : ℕ)
    → n ≡ length src + k
    → offset ≡ length w
    → copy_at (w ++ make_bytes n) offset src ≡ (w ++ src) ++ make_bytes k
unfolding copy_at
copy_at-append [] src k n zero e o = copy-make_bytes src k n e
copy_at-append [] src k n (suc offset) e o = absurd (omega (arith, o))
copy_at-append (b ∷ w) src k n zero e o = absurd (omega (arith, o))
copy_at-append (b ∷ w) src k n (suc offset) e o =
    ap (λ l. b ∷ l) (copy_at-append w src k n offset e (omega (arith, o)))

put-append :
    (w src : List ℕ) (k n offset : ℕ)
    → n ≡ length src + k
    → offset ≡ length w
    → put (w ++ make_bytes n) offset src ≡ done ((w ++ src) ++ make_bytes k)
unfolding put
put-append w src k n offset e o = ground (
  arith,
  copy_at-append w src k n offset e o,
  length-append w (make_bytes n),
  length-make_bytes n,
)

copy_from-append :
    (w src : List ℕ) (k n offset : ℕ)
    → n ≡ length src + k
    → offset ≡ length w
    → copy_from (w ++ make_bytes n) offset src ≡ done ((w ++ src) ++ make_bytes k)
unfolding copy_from
copy_from-append w src k n offset e o = ground (
  arith,
  copy_at-append w src k n offset e o,
  length-append w (make_bytes n),
  length-make_bytes n,
)

-- The packet, written out.
abbrev pub packet : MessagePatchOrder → List ℕ
packet order =
    kind_byte order.kind
    ∷ (uint16_bytes (length order.message_id)
        ++ (order.message_id ++ (uint16_bytes (length order.value) ++ order.value)))

marshal-eq-packet : (order : MessagePatchOrder) → marshal order ≡ done (packet order)
unfolding marshal
marshal-eq-packet order =
    let id = order.message_id in
    let v = order.value in
    let w₁ = kind_byte order.kind ∷ [] in
    let w₂ = w₁ ++ uint16_bytes (length id) in
    let w₃ = w₂ ++ id in
    let w₄ = w₃ ++ uint16_bytes (length v) in
    let n = 1 + 2 + length id + 2 + length v in
    let k₁ = 2 + length id + 2 + length v in
    let k₂ = length id + 2 + length v in
    let k₃ = 2 + length v in
    rw
      (
        put-append [] w₁ k₁ n 0 (omega arith) refl,
        put-append w₁ (uint16_bytes (length id)) k₂ k₁ 1 (omega arith) refl,
        copy_from-append w₂ id k₃ k₂ 3 (omega arith) refl,
        put-append w₃ (uint16_bytes (length v)) (length v) k₃ (3 + length id) (omega arith)
            (omega (arith, length-append w₂ id)),
        copy_from-append w₄ v 0 (length v) (3 + length id + 2) (omega arith)
            (omega (arith, length-append id (uint16_bytes (length v)))),
      )
      (simp (append-nil, append_assoc))

uint16-uint16_bytes : (n : ℕ) → uint16 ((n % 65536) / 256) ((n % 65536) % 256) ≡ n % 65536
uint16-uint16_bytes n = omega arith

-- The reader past the kind.
read_id : MessagePatchOrderKind → ℕ → List ℕ → Option MessagePatchOrder
read_id kind n rest =
    if ltb (length rest) n then none else read_value kind (take n rest) (drop n rest)

unmarshal-kind :
    (k : MessagePatchOrderKind) (high low : ℕ) (rest : List ℕ)
    → unmarshal_message_patch_order (kind_byte k ∷ high ∷ low ∷ rest)
      ≡ read_id k (uint16 high low) rest
unfolding unmarshal_message_patch_order read_id
unmarshal-kind append high low rest = refl
unmarshal-kind replace high low rest = refl

read_id-append :
    (k : MessagePatchOrderKind) (n : ℕ) (id rest : List ℕ)
    → n ≡ length id
    → read_id k n (id ++ rest) ≡ read_value k id rest
unfolding read_id
read_id-append k n id rest e =
    rw (e, take-append id rest, drop-append id rest) (ground (arith, length-append id rest))

read_value-uint16_bytes :
    (k : MessagePatchOrderKind) (id v : List ℕ)
    → read_value k id (uint16_bytes (length v) ++ v)
      ≡ some (record { message_id = id; kind = k; value = take (length v % 65536) v })
unfolding read_value uint16_bytes
read_value-uint16_bytes k id v = rw (uint16-uint16_bytes (length v)) (ground arith)

-- Marshal does not panic. If the message id has fewer than 65536 bytes, the client reads the packet
-- without an error as the order, with its value cut to as many bytes as its length leaves
-- modulo 65536.
pub unmarshal-marshal :
    (order : MessagePatchOrder)
    → length order.message_id < 65536
    → (bytes : List ℕ) × (marshal order ≡ done bytes)
      × (unmarshal_message_patch_order bytes
          ≡ some (record order { value = take (length order.value % 65536) order.value }))
unfolding uint16_bytes
unmarshal-marshal order short =
    let id = order.message_id in
    let rest = uint16_bytes (length order.value) ++ order.value in
    (
      packet order,
      marshal-eq-packet order,
      unmarshal-kind order.kind _ _ (id ++ rest)
          ∙ read_id-append order.kind _ id rest
              (uint16-uint16_bytes (length id) ∙ omega (arith, short))
          ∙ read_value-uint16_bytes order.kind id order.value,
    )
