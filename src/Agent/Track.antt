-- ===== src/Agent/Track.antt =====
-- webrtc-agents/pkg/tracks/handle.go: a track that streams the packets of a generator to each peer
-- connection that it is bound to. The generator and the writer are parameters: `G` is a generator's
-- state, and `broken` says whether the next write fails, given what was written. Each stream is a
-- goroutine with a stop channel of its own; `next` is the next channel.
pub mod Clock
pub mod Streams
use Prim.Native.String.{◌++◌ as str_append}
use webrtc_chat.Prelude.{
  ℕ, zero, suc, ◌+◌, ◌%◌, ◌^◌, String, Bool, true, false, Option, none, some, List, [], ◌∷◌, ◌++◌,
  Outcome, done, panic, closed_channel, ◌>>=◌, ◌==◌, nat_eq, if◌then◌else◌,
}
use webrtc_chat.Map
use webrtc_chat.Map.{Map}
use webrtc_chat.Agent.Ogg.{Header, Packet}

-- RTPPacketGenerator.GetPacket: `none` is an error.
abbrev pub Generator : Type 0 → Type 0
Generator G = G → Header → G × Option Packet

-- The variables of startStreaming, and the packets written so far.
pub record Stream (G : Type 0) : Type 0 where
  pub generator : G
  pub sequence_number : ℕ
  pub timestamp : ℕ
  pub written : List Packet

-- What the loop of startStreaming waits for.
pub data Event : Type 0 where
  tick stop : Event

abbrev pub num_pre_populate_packets : ℕ
num_pre_populate_packets = 10

module _ {G : Type 0} (get_packet : Generator G) (broken : List Packet → Bool)
    (ssrc payload_type samples_per_packet : ℕ) where
  abbrev pub header_of : Stream G → Header
  header_of s = record {
    ssrc = ssrc;
    payload_type = payload_type;
    sequence_number = s.sequence_number;
    timestamp = s.timestamp;
  }

  -- encodeAndSend: the stream, and whether there was no error. The numbers are a uint16 and a uint32.
  unfoldable pub encode_and_send : Stream G → Stream G × Bool
  encode_and_send s =
      let (generator, made) = get_packet s.generator (header_of s) in
      elim made [
        | none ↦ (record s { generator = generator }, false)
        | some p ↦ if broken s.written then (record s { generator = generator }, false) else (
          record {
            generator = generator;
            sequence_number = (s.sequence_number + 1) % 65536;
            timestamp = (s.timestamp + samples_per_packet % 2 ^ 32) % 2 ^ 32;
            written = s.written ++ p ∷ [];
          },
          true,
        )
      ]

  -- The packets that are sent ahead.
  unfoldable pub pre_populate : ℕ → Stream G → Stream G × Bool
  unfolding encode_and_send
  pre_populate zero s = (s, true)
  pre_populate (suc n) s =
      let (s', ok) = encode_and_send s in
      let rest = pre_populate n s' in if ok then rest else (s', false)

  -- The loop, over what it waits for: an error ends it, and so does the stop channel.
  unfoldable pub stream_loop : List Event → Stream G → Stream G
  unfolding encode_and_send
  stream_loop [] s = s
  stream_loop (stop ∷ events) s = s
  stream_loop (tick ∷ events) s =
      let (s', ok) = encode_and_send s in
      let rest = stream_loop events s' in if ok then rest else s'

  -- startStreaming, from the random numbers on.
  unfoldable pub start_streaming : G → ℕ → ℕ → List Event → Stream G
  unfolding pre_populate stream_loop
  start_streaming g sequence_number timestamp events =
      let (s, ok) = pre_populate num_pre_populate_packets (record {
        generator = g;
        sequence_number = sequence_number;
        timestamp = timestamp;
        written = [];
      }) in
      if ok then stream_loop events s else s

pub record RtpCodecParameters : Type 0 where
  pub mime_type : String
  pub clock_rate : ℕ
  pub payload_type : ℕ

-- The first Opus codec of those that were negotiated.
unfoldable pub get_opus_codec_params : List RtpCodecParameters → Option RtpCodecParameters
get_opus_codec_params [] = none
get_opus_codec_params (c ∷ cs) =
    if c.mime_type == "audio/opus" then some c else get_opus_codec_params cs

-- TrackHandle: its stop channels by the id of a context, and of all channels so far whether they are
-- closed and which context they were made for.
pub record TrackHandle : Type 0 where
  pub stop_chan : Map ℕ
  pub is_closed : ℕ → Bool
  pub made_for : ℕ → String
  pub next : ℕ

abbrev pub new_track_handle : TrackHandle
new_track_handle = record {
  stop_chan = Map.empty;
  is_closed = λ c. false;
  made_for = λ c. "";
  next = 0;
}

-- How Bind ends.
pub data Binding : Type 0 where
  bound : RtpCodecParameters → Binding
  no_opus : Binding
  already_bound : Binding

unfoldable pub bind : String → List RtpCodecParameters → TrackHandle → TrackHandle × Binding
unfolding get_opus_codec_params
bind ctx_id codecs track = elim (get_opus_codec_params codecs) [
  | none ↦ (track, no_opus)
  | some codec ↦ elim (Map.get track.stop_chan ctx_id) [
    | some c ↦ (track, already_bound)
    | none ↦ (
      record track {
        stop_chan = Map.put track.stop_chan ctx_id track.next;
        made_for = λ c. if nat_eq track.next c then ctx_id else track.made_for c;
        next = suc track.next;
      },
      bound codec,
    )
  ]
]

-- close(c) and delete; a channel that is closed already makes close panic.
unfoldable pub unbind : String → TrackHandle → Outcome TrackHandle
unbind ctx_id track = elim (Map.get track.stop_chan ctx_id) [
  | none ↦ done track
  | some c ↦
      if track.is_closed c
      then panic closed_channel
      else done (record track {
        stop_chan = Map.remove track.stop_chan ctx_id;
        is_closed = λ d. if nat_eq c d then true else track.is_closed d;
      })
]

pub data Call : Type 0 where
  binds : String → List RtpCodecParameters → Call
  unbinds : String → Call

unfoldable pub call : Call → TrackHandle → Outcome TrackHandle
unfolding bind unbind
call (binds ctx_id codecs) track = done (bind ctx_id codecs track).0
call (unbinds ctx_id) track = unbind ctx_id track

unfoldable pub calls : List Call → TrackHandle → Outcome TrackHandle
unfolding call
calls [] track = done track
calls (c ∷ cs) track = call c track >>= calls cs
