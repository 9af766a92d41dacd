-- ===== src/Examples/Tracks.antt =====
-- webrtc-agents/pkg/tracks: a stream, a track with two peers, and a duplicated track.
use webrtc_chat.Prelude.{
  ℕ, ◌+◌, ◌≤◌, arith, String, false, ◌≡◌, refl, ◌↔◌, ◌⊎◌, none, some, List, [], ◌∷◌, ◌++◌, length,
  get_elem?,
}
use webrtc_chat.Map
use webrtc_chat.Map.{entries_range, get-remove, get-put, get-empty}
use webrtc_chat.Agent.Ogg.{Header, Packet}
use webrtc_chat.Agent.Track.{
  RtpCodecParameters, Generator, tick, stop, start_streaming, TrackHandle, new_track_handle,
}
use webrtc_chat.Agent.Track.Clock.{header_at, start_streaming_numbered, start_streaming_complete}
use webrtc_chat.Agent.Duplicate.{
  TrackLocalContext, SourceContext, System, Reach, here, next, starts_bind, ends_bind,
  new_track_duplicater, bind_locked, send, store_consumer,
}
use webrtc_chat.Agent.Duplicate.Consumers.{
  Event, offered, turn, expect_all, seen, consume, fresh, LeavesOut, consume_lem,
}
use webrtc_chat.Agent.Duplicate.Settled.{first}
use webrtc_chat.Agent.Duplicate.Binding.{Reach-source_context}
use webrtc_chat.Agent.Duplicate.Codecs.{track_local}

-- A generator of empty packets, that counts them.
abbrev silence : Generator ℕ
silence n h = (n + 1, some (record { version = 2; header = h; payload = [] }))

silence-faithful : (g g' : ℕ) (h : Header) (p : Packet) → silence g h ≡ (g', some p) → p.header ≡ h
silence-faithful g g' h p e = ground arith

-- The sequence numbers wrap in the sixth packet.
start_streaming_numbered_example :
    let s = start_streaming silence (λ w. false) 7 111 960 0 65530 0 (tick ∷ tick ∷ stop ∷ []) in
    ((n : ℕ) (p : Packet)
      → get_elem? s.written n ≡ some p
      → p.header ≡ header_at silence (λ w. false) 7 111 960 65530 0 silence-faithful n)
    × (length s.written ≤ 12)
start_streaming_numbered_example =
    start_streaming_numbered silence (λ w. false) 7 111 960 65530 0 silence-faithful 0
      (tick ∷ tick ∷ stop ∷ []) (omega arith) (omega arith)

start_streaming_complete_example :
    length
      (start_streaming silence
        (λ w. false)
        7
        111
        960
        0
        65530
        0
        (tick ∷ tick ∷ stop ∷ tick ∷ [])).written
    ≡ 12
start_streaming_complete_example =
    start_streaming_complete silence (λ w. false) 7 111 960
      (λ g h. (record { version = 2; header = h; payload = [] }, refl)) (λ w. refl) 0 65530 0
      (tick ∷ tick ∷ stop ∷ tick ∷ [])

abbrev opus : RtpCodecParameters
opus = record { mime_type = "audio/opus"; clock_rate = 48000; payload_type = 111 }

abbrev pcmu : RtpCodecParameters
pcmu = record { mime_type = "audio/PCMU"; clock_rate = 8000; payload_type = 0 }

-- A buffer of two packets: the third that is offered at once is dropped.
abbrev busy : List (Event ℕ)
busy = offered 1 ∷ offered 2 ∷ offered 3 ∷ turn ∷ offered 4 ∷ []

busy-run : consume 2 busy fresh ≡ record { packets = 2 ∷ 4 ∷ []; written = 1 ∷ []; stopped = false }
unfolding consume
busy-run = refl

consume_lem_example :
    let c = consume 2 busy fresh in
    let c' = (send 2 5 c).0 in
    (seen c ≡ record { accepted = 1 ∷ 2 ∷ 4 ∷ []; delivered = 1; over = false })
    × LeavesOut (c.written ++ c.packets) (1 ∷ 2 ∷ 3 ∷ 4 ∷ [])
    × (length c.packets ≤ 2)
    × ((c'.written ++ c'.packets ≡ (c.written ++ c.packets) ++ 5 ∷ []) ⊎ (length c.packets ≡ 2))
unfolding expect_all
consume_lem_example = consume_lem 2 busy 5

abbrev peer : List RtpCodecParameters → TrackLocalContext
peer codecs = record { id = "peer"; ssrc = 7; codec_parameters = codecs }

abbrev started : System ℕ TrackHandle
started = record {
  dup = store_consumer (peer (opus ∷ [])) (new_track_duplicater new_track_handle);
  binding = Map.put Map.empty "peer" tt;
  unbinding = 0;
}

abbrev ended : System ℕ TrackHandle
ended = record {
  dup = (bind_locked (track_local "t") (peer (opus ∷ [])) started.dup).0;
  binding = Map.remove started.binding "peer";
  unbinding = 0;
}

reached : Reach (track_local "t") (entries_range ℕ) 100 (first new_track_handle) ended
unfolding Map.get Map.empty Map.put
reached =
    next (next here (starts_bind (peer (opus ∷ [])) refl refl))
      (ends_bind (peer (opus ∷ [])) refl refl)

none_pending : (id : String) → Map.get ended.binding id ≡ none
none_pending id = ground (
  arith,
  get-remove (Map.put (Map.empty {V = Unit {0}}) "peer" tt) "peer" id,
  get-put (Map.empty {V = Unit {0}}) "peer" id tt,
  get-empty {V = Unit {0}} id,
)

Reach-source_context_example :
    ((id : String) × ((c : ℕ) × (Map.get ended.dup.downstreams id ≡ some c)))
    ↔ ((source : SourceContext) × (ended.dup.source_context ≡ some source))
Reach-source_context_example =
    Reach-source_context (track_local "t") (entries_range ℕ) 100 new_track_handle ended reached
      none_pending refl

no_stream : Map.get new_track_handle.stop_chan "source-t" ≡ none
unfolding Map.get Map.empty
no_stream = refl
