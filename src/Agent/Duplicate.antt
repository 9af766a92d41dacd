-- ===== src/Agent/Duplicate.antt =====
-- webrtc-agents/pkg/tracks/duplicate/duplicate.go: one upstream track for many consumers. The map of
-- consumers is a sync.Map of pointers, and `heap` holds what they point to. Bind changes the map
-- before it takes the mutex, and so does Unbind: each is two steps here, and other calls may come
-- between them. The upstream track is a parameter; `U` is its state.
pub mod Consumers
pub mod Settled
pub mod Settling
pub mod Binding
pub mod Codecs
use Prim.Native.String.{◌++◌ as str_append}
use webrtc_chat.Prelude.{
  ℕ, zero, suc, ◌+◌, ◌-◌, ◌<◌, String, Bool, true, false, ◌≡◌, Option, none, some, List, [], ◌∷◌,
  ◌++◌, ltb, nat_eq, if◌then◌else◌, length,
}
use webrtc_chat.Map
use webrtc_chat.Map.{Map, Range}
use webrtc_chat.Agent.Track.{RtpCodecParameters}

-- downstreamConsumer: its channel, what its writer has written, and whether it was told to stop.
pub record DownstreamConsumer (P : Type 0) : Type 0 where
  pub packets : List P
  pub written : List P
  pub stopped : Bool

module _ {P : Type 0} where
  -- send: a full buffer drops the packet.
  unfoldable pub send : ℕ → P → DownstreamConsumer P → DownstreamConsumer P × Bool
  send buffer_size pkt c =
      if ltb (length c.packets) buffer_size
      then (record c { packets = c.packets ++ pkt ∷ [] }, true)
      else (c, false)

  -- One turn of the writer goroutine; after the stop there is none. A failed write is only logged.
  abbrev pub take_packet : List P → DownstreamConsumer P → DownstreamConsumer P
  take_packet [] c = c
  take_packet (pkt ∷ packets) c = record c { packets = packets; written = c.written ++ pkt ∷ [] }

  unfoldable pub write_next : DownstreamConsumer P → DownstreamConsumer P
  write_next c = if c.stopped then c else take_packet c.packets c

  -- close: the writer drains the channel and ends, and is waited for.
  unfoldable pub close : DownstreamConsumer P → DownstreamConsumer P
  close c = record { packets = []; written = c.written ++ c.packets; stopped = true }

-- webrtc.TrackLocalContext, as far as it is read.
pub record TrackLocalContext : Type 0 where
  pub id : String
  pub ssrc : ℕ
  pub codec_parameters : List RtpCodecParameters

pub record SourceContext : Type 0 where
  pub id : String
  pub ssrc : ℕ
  pub codec : RtpCodecParameters

-- The upstream track: its ID, and Bind and Unbind on a source context.
pub record TrackLocal (U : Type 0) : Type 0 where
  pub id : String
  pub bind : SourceContext → U → U × Option RtpCodecParameters
  pub unbind : SourceContext → U → U

pub record TrackDuplicater (P U : Type 0) : Type 0 where
  pub downstreams : Map ℕ
  pub heap : ℕ → DownstreamConsumer P
  pub next : ℕ
  pub source_context : Option SourceContext
  pub codec : RtpCodecParameters
  pub upstream : U

abbrev pub no_codec : RtpCodecParameters
no_codec = record { mime_type = ""; clock_rate = 0; payload_type = 0 }

-- The first codec of a context, or the zero value.
abbrev pub first_codec : List RtpCodecParameters → RtpCodecParameters
first_codec [] = no_codec
first_codec (c ∷ cs) = c

abbrev pub source_of : {U : Type 0} → TrackLocal U → TrackLocalContext → SourceContext
source_of track ctx = record {
  id = str_append "source-" track.id;
  ssrc = ctx.ssrc;
  codec = first_codec ctx.codec_parameters;
}

module _ {P U : Type 0} where
  abbrev pub new_track_duplicater : U → TrackDuplicater P U
  new_track_duplicater upstream = record {
    downstreams = Map.empty;
    heap = λ r. record { packets = []; written = []; stopped = false };
    next = 0;
    source_context = none;
    codec = no_codec;
    upstream = upstream;
  }

  -- What Bind does before it takes the mutex.
  unfoldable pub store_consumer : TrackLocalContext → TrackDuplicater P U → TrackDuplicater P U
  store_consumer ctx dup = record dup {
    downstreams = Map.put dup.downstreams ctx.id dup.next;
    heap = λ r.
        if nat_eq dup.next r
        then record { packets = []; written = []; stopped = false }
        else dup.heap r;
    next = suc dup.next;
  }

  -- if c, ok := downstreams.Load(id); ok { c.close() }; downstreams.Delete(id)
  unfoldable pub drop_consumer : String → TrackDuplicater P U → TrackDuplicater P U
  unfolding close
  drop_consumer id dup = elim (Map.get dup.downstreams id) [
    | none ↦ record dup { downstreams = Map.remove dup.downstreams id }
    | some c ↦ record dup {
      downstreams = Map.remove dup.downstreams id;
      heap = λ r. if nat_eq c r then close (dup.heap r) else dup.heap r;
    }
  ]

  -- What Bind does with the answer of the upstream's Bind.
  unfoldable pub upstream_bound :
      TrackLocalContext
      → SourceContext
      → TrackDuplicater P U
      → U × Option RtpCodecParameters
      → TrackDuplicater P U × Option RtpCodecParameters
  unfolding drop_consumer
  upstream_bound ctx source dup (upstream, none) =
      (drop_consumer ctx.id (record dup { upstream = upstream }), none)
  upstream_bound ctx source dup (upstream, some codec) =
      (record dup { upstream = upstream; source_context = some source; codec = codec }, some codec)

  -- The same by the source context that there is.
  unfoldable pub bind_from :
      TrackLocal U
      → TrackLocalContext
      → TrackDuplicater P U
      → Option SourceContext
      → TrackDuplicater P U × Option RtpCodecParameters
  unfolding upstream_bound
  bind_from track ctx dup (some source) = (record dup { codec = source.codec }, some source.codec)
  bind_from track ctx dup none =
      upstream_bound ctx (source_of track ctx) dup (track.bind (source_of track ctx) dup.upstream)

  -- What Bind does under the mutex: the codec, or `none` for an error.
  unfoldable pub bind_locked :
      TrackLocal U
      → TrackLocalContext
      → TrackDuplicater P U
      → TrackDuplicater P U × Option RtpCodecParameters
  unfolding bind_from
  bind_locked track ctx dup = bind_from track ctx dup dup.source_context

  -- consumerCount; the order of the range makes no difference.
  unfoldable pub consumer_count : Range ℕ → TrackDuplicater P U → ℕ
  consumer_count range dup = length (range.order dup.downstreams)

  unfoldable pub unbind_from :
      TrackLocal U → ℕ → TrackDuplicater P U → Option SourceContext → TrackDuplicater P U
  unbind_from track count dup none = dup
  unbind_from track count dup (some source) =
      if nat_eq count 0
      then record dup { source_context = none; upstream = track.unbind source dup.upstream }
      else dup

  -- What Unbind does under the mutex.
  unfoldable pub unbind_locked : TrackLocal U → Range ℕ → TrackDuplicater P U → TrackDuplicater P U
  unfolding consumer_count unbind_from
  unbind_locked track range dup =
      unbind_from track (consumer_count range dup) dup dup.source_context

  abbrev pub send_to : ℕ → P → ℕ → TrackDuplicater P U → TrackDuplicater P U
  send_to buffer_size pkt c dup = record dup {
    heap = λ r. if nat_eq c r then (send buffer_size pkt (dup.heap r)).0 else dup.heap r;
  }

  unfoldable pub forward_to : ℕ → P → List (String × ℕ) → TrackDuplicater P U → TrackDuplicater P U
  unfolding send
  forward_to buffer_size pkt [] dup = dup
  forward_to buffer_size pkt ((id, c) ∷ l) dup =
      forward_to buffer_size pkt l (send_to buffer_size pkt c dup)

  unfoldable pub forward_to_downstreams :
      Range ℕ → ℕ → P → TrackDuplicater P U → TrackDuplicater P U
  unfolding forward_to
  forward_to_downstreams range buffer_size pkt dup =
      forward_to buffer_size pkt (range.order dup.downstreams) dup

  -- A turn of a consumer's writer.
  unfoldable pub write_turn : ℕ → TrackDuplicater P U → TrackDuplicater P U
  unfolding write_next
  write_turn c dup = record dup {
    heap = λ r. if nat_eq c r then write_next (dup.heap r) else dup.heap r;
  }

-- The calls that are between their two steps: the ids of those of Bind, and how many of Unbind.
pub record System (P U : Type 0) : Type 0 where
  pub dup : TrackDuplicater P U
  pub binding : Map (Unit {0})
  pub unbinding : ℕ

module _ {P U : Type 0} (track : TrackLocal U) (range : Range ℕ) (buffer_size : ℕ) where
  -- The steps. A context is bound when it is not bound, and unbound when its Bind has returned.
  pub data Step (s : System P U) (s' : System P U) : Type 0 where
    starts_bind :
        (ctx : TrackLocalContext)
        → Map.get s.dup.downstreams ctx.id ≡ none
        → s' ≡ record s { dup = store_consumer ctx s.dup; binding = Map.put s.binding ctx.id tt }
        → Step s s'
    ends_bind :
        (ctx : TrackLocalContext)
        → Map.get s.binding ctx.id ≡ some tt
        → s' ≡ record s {
          dup = (bind_locked track ctx s.dup).0;
          binding = Map.remove s.binding ctx.id;
        }
        → Step s s'
    starts_unbind :
        (ctx : TrackLocalContext)
        → Map.get s.binding ctx.id ≡ none
        → s' ≡ record s { dup = drop_consumer ctx.id s.dup; unbinding = suc s.unbinding }
        → Step s s'
    ends_unbind :
        (n : ℕ)
        → s.unbinding ≡ suc n
        → s' ≡ record s { dup = unbind_locked track range s.dup; unbinding = n }
        → Step s s'
    forwards :
        (pkt : P)
        → s' ≡ record s { dup = forward_to_downstreams range buffer_size pkt s.dup }
        → Step s s'
    writes : (c : ℕ) → s' ≡ record s { dup = write_turn c s.dup } → Step s s'

  pub data Reach (s : System P U) : System P U → Type 0 where
    here : Reach s s
    next : {t u : System P U} → Reach s t → Step t u → Reach s u
