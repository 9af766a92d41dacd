-- ===== src/Agent/Patch.antt =====
-- webrtc-agents/pkg/handlers/stream.go: the packet of a MessagePatchOrder. A Go text is its bytes.
pub mod Layout
use webrtc_chat.Prelude.{
  ℕ, ◌*◌, ltb, Option, none, some, take, drop, zero, suc, ◌+◌, ◌/◌, ◌%◌, List, [], ◌∷◌, Outcome,
  done, panic, index_out_of_range, ◌>>=◌, leb, if◌then◌else◌, length,
}

pub data MessagePatchOrderKind : Type 0 where
  append replace : MessagePatchOrderKind

pub record MessagePatchOrder : Type 0 where
  pub message_id : List ℕ
  pub kind : MessagePatchOrderKind
  pub value : List ℕ

-- byte(msgPatchOrder.Kind)
abbrev pub kind_byte : MessagePatchOrderKind → ℕ
kind_byte append = 0
kind_byte replace = 1

-- make([]byte, n)
abbrev pub make_bytes : ℕ → List ℕ
make_bytes zero = []
make_bytes (suc n) = 0 ∷ make_bytes n

-- copy(buf, src), which ends with the shorter of the two.
unfoldable pub copy : List ℕ → List ℕ → List ℕ
copy [] src = []
copy (b ∷ buf) [] = b ∷ buf
copy (b ∷ buf) (x ∷ src) = x ∷ copy buf src

-- copy(buf[offset:], src) for an offset within the buffer.
unfoldable pub copy_at : List ℕ → ℕ → List ℕ → List ℕ
unfolding copy
copy_at buf zero src = copy buf src
copy_at [] (suc offset) src = []
copy_at (b ∷ buf) (suc offset) src = b ∷ copy_at buf offset src

-- The slice expression panics for an offset beyond the buffer.
unfoldable pub copy_from : List ℕ → ℕ → List ℕ → Outcome (List ℕ)
unfolding copy_at
copy_from buf offset src =
    if leb offset (length buf) then done (copy_at buf offset src) else panic index_out_of_range

-- buf[offset] = b, and PutUint16: all the bytes must fit.
unfoldable pub put : List ℕ → ℕ → List ℕ → Outcome (List ℕ)
unfolding copy_at
put buf offset src =
    if leb (offset + length src) (length buf)
    then done (copy_at buf offset src)
    else panic index_out_of_range

-- The two bytes of uint16(n), big endian.
unfoldable pub uint16_bytes : ℕ → List ℕ
uint16_bytes n = (n % 65536) / 256 ∷ (n % 65536) % 256 ∷ []

unfoldable pub marshal : MessagePatchOrder → Outcome (List ℕ)
unfolding put copy_from uint16_bytes
marshal order =
    let id_length = length order.message_id in
    let total_size = 1 + 2 + id_length + 2 + length order.value in
    put (make_bytes total_size) 0 (kind_byte order.kind ∷ []) >>= λ buf.
    put buf 1 (uint16_bytes id_length) >>= λ buf. copy_from buf 3 order.message_id >>= λ buf.
    put buf (3 + id_length) (uint16_bytes (length order.value)) >>= λ buf.
    copy_from buf (3 + id_length + 2) order.value

-- webrtc-web/apis/message_patch.ts: the client's reader. A length that goes beyond the packet is an
-- error, `none` here, and so is a kind that the type does not have, which the client lets through.
abbrev pub kind_of : ℕ → Option MessagePatchOrderKind
kind_of zero = some append
kind_of (suc zero) = some replace
kind_of (suc (suc n)) = none

-- view.getUint16(offset, false)
abbrev pub uint16 : ℕ → ℕ → ℕ
uint16 high low = high * 256 + low

unfoldable pub read_value : MessagePatchOrderKind → List ℕ → List ℕ → Option MessagePatchOrder
read_value kind id (high ∷ low ∷ rest) =
    if ltb (length rest) (uint16 high low)
    then none
    else some (record { message_id = id; kind = kind; value = take (uint16 high low) rest })
read_value kind id _ = none

unfoldable pub unmarshal_message_patch_order : List ℕ → Option MessagePatchOrder
unfolding read_value
unmarshal_message_patch_order (k ∷ high ∷ low ∷ rest) = elim (kind_of k) [
  | none ↦ none
  | some kind ↦
      if ltb (length rest) (uint16 high low)
      then none
      else read_value kind (take (uint16 high low) rest) (drop (uint16 high low) rest)
]
unmarshal_message_patch_order _ = none
