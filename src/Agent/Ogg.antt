-- ===== src/Agent/Ogg.antt =====
-- webrtc-agents/pkg/tracks/oggfile/file.go: packets from an Ogg file. The files and the library's
-- reader are a parameter. The generator's mutex is a flag: a Lock on a held mutex never returns,
-- also not in the goroutine that holds it, which is `blocked`. GetPacket calls itself, so it runs
-- on fuel, and two are enough.
pub mod Lock
use webrtc_chat.Prelude.{
  ℕ, zero, suc, Bool, true, false, Option, none, some, List, nat_eq, not, if◌then◌else◌,
}

-- A page: `metadata` says that it holds an OpusHead or OpusTags header.
pub record Page : Type 0 where
  pub payload : List ℕ
  pub granule_position : ℕ
  pub metadata : Bool

-- What ParseNextPage returns.
pub data NextPage : Type 0 where
  page : Page → NextPage
  end_of_file : NextPage
  malformed : NextPage

-- os.Open and oggreader.NewWith on the generator's path, and ParseNextPage.
pub record OggFiles (R : Type 0) : Type 0 where
  pub open_reader : Option R
  pub parse_next_page : R → R × NextPage

pub record Generator (R : Type 0) : Type 0 where
  pub reader : R
  pub granule_pos : ℕ
  pub is_done : Bool
  pub locked : Bool

pub record Header : Type 0 where
  pub ssrc : ℕ
  pub payload_type : ℕ
  pub sequence_number : ℕ
  pub timestamp : ℕ

-- rtp.Packet
pub record Packet : Type 0 where
  pub version : ℕ
  pub header : Header
  pub payload : List ℕ

pub data Reading : Type 0 where
  packet : Packet → Reading
  eof : Reading
  read_error : Reading

-- A call that returns, or waits for ever.
pub data Waiting (A : Type 0) : Type 0 where
  returned : A → Waiting A
  blocked : Waiting A
  out_of_fuel : Waiting A

module _ {R : Type 0} (files : OggFiles R) where
  -- The deferred Unlock.
  abbrev pub unlock : Generator R → Reading → Waiting (Generator R × Reading)
  unlock gen r = returned (record gen { locked = false }, r)

  abbrev pub audio_packet : Header → Page → Packet
  audio_packet header p = record { version = 2; header = header; payload = p.payload }

  -- The end of GetPacket on an audio page.
  unfoldable pub take_audio : Header → Page → Generator R → Waiting (Generator R × Reading)
  take_audio header p gen =
      unlock
        (record gen {
          granule_pos = if nat_eq p.granule_position 0 then gen.granule_pos else p.granule_position;
        })
        (packet (audio_packet header p))

  -- OggFileGenerator.GetPacket
  unfoldable pub get_packet : ℕ → Header → Generator R → Waiting (Generator R × Reading)
  unfolding take_audio
  get_packet zero header gen = out_of_fuel
  get_packet (suc fuel) header gen =
      let held = record gen { locked = true } in
      let (reader, next) = files.parse_next_page gen.reader in
      let gen' : Generator R = record held { reader = reader } in
      let again = get_packet fuel header gen' in
      if gen.locked then blocked else if gen.is_done then unlock held eof else elim next [
        | end_of_file ↦ unlock (record gen' { is_done = true }) eof
        | malformed ↦ unlock gen' read_error
        | page p ↦ if p.metadata then again else take_audio header p gen'
      ]

  -- resetReader
  unfoldable pub reset_reader : Generator R → Option (Generator R)
  reset_reader gen = elim files.open_reader [
    | none ↦ none
    | some reader ↦ some (record gen { reader = reader; granule_pos = 0; is_done = false })
  ]

  -- What Looper.GetPacket does with the first result.
  unfoldable pub loop_on :
      ℕ → Header → Waiting (Generator R × Reading) → Waiting (Generator R × Reading)
  unfolding get_packet reset_reader
  loop_on fuel header (returned (gen, eof)) = elim (reset_reader gen) [
    | none ↦ returned (gen, read_error)
    | some gen' ↦ get_packet fuel header gen'
  ]
  loop_on fuel header (returned (gen, r)) = returned (gen, r)
  loop_on fuel header blocked = blocked
  loop_on fuel header out_of_fuel = out_of_fuel

  -- Looper.GetPacket
  unfoldable pub loop_packet : ℕ → Header → Generator R → Waiting (Generator R × Reading)
  unfolding get_packet loop_on
  loop_packet fuel header gen = loop_on fuel header (get_packet fuel header gen)
