-- ===== src/Agent/Ogg/Lock.antt =====
-- webrtc-agents/pkg/tracks/oggfile/file.go: when GetPacket returns.
use webrtc_chat.Prelude.{ℕ, suc, ◌≡◌, refl, ◌∙◌, ap, true, false, some}
use webrtc_chat.Agent.Ogg.{
  Page, page, OggFiles, Generator, Header, Reading, eof, Waiting, returned, blocked, get_packet,
  reset_reader, loop_on, loop_packet,
}

-- The next thing that a generator reads is a metadata page.
abbrev pub AtMetadata : {R : Type 0} → OggFiles R → Generator R → Type 0
AtMetadata files gen =
    (p : Page) × ((files.parse_next_page gen.reader).1 ≡ page p) × (p.metadata ≡ true)

module _ {R : Type 0} (files : OggFiles R) where
  held_blocks :
      (n : ℕ) (header : Header) (gen : Generator R)
      → gen.locked ≡ true
      → get_packet files (suc n) header gen ≡ blocked
  unfolding get_packet
  held_blocks n header gen locked = rw (locked, get_packet) refl

  abbrev pub Released : Waiting (Generator R × Reading) → Type 0
  Released w = (gen : Generator R) × (r : Reading) × (w ≡ returned (gen, r)) × (gen.locked ≡ false)

  reset-metadata :
      (n : ℕ) (header : Header) (gen : Generator R) (reader : R) (p : Page)
      → gen.locked ≡ false
      → files.open_reader ≡ some reader
      → (files.parse_next_page reader).1 ≡ page p
      → p.metadata ≡ true
      → loop_on files (suc (suc n)) header (returned (gen, eof)) ≡ blocked
  unfolding loop_on reset_reader get_packet
  reset-metadata n header gen reader p free opened next m =
      rw (opened, free, next, m, get_packet, reset_reader) refl

  -- A Looper at the end of a file whose first page, as the reader finds it after opening the file
  -- again, is a metadata page waits for ever in place of starting over.
  pub loop_packet-metadata :
      (n : ℕ) (header : Header) (gen : Generator R) (reader : R) (p : Page)
      → gen.locked ≡ false
      → gen.is_done ≡ true
      → files.open_reader ≡ some reader
      → (files.parse_next_page reader).1 ≡ page p
      → p.metadata ≡ true
      → loop_packet files (suc (suc n)) header gen ≡ blocked
  unfolding loop_packet get_packet
  loop_packet-metadata n header gen reader p free finished opened next m =
      ap (loop_on files (suc (suc n)) header) (
        let ended : get_packet files (suc (suc n)) header gen
            ≡ returned (record gen { locked = false }, eof) =
          rw (free, finished, get_packet) refl in
        ended)
      ∙ reset-metadata n header (record gen { locked = false }) reader p refl opened next m
