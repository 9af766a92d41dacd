-- ===== src/Agent/Duplicate/Codecs.antt =====
-- webrtc-agents/pkg/tracks: a TrackDuplicater over a TrackHandle.
use webrtc_chat.Prelude.{
  String, ◌≡◌, refl, ◌∙◌, ap, Option, none, some, [], ◌∷◌, Outcome, done, panic, ◌==◌, Bool-cases,
  inl, inr, if◌then◌else◌,
}
use Prim.Native.String.{◌++◌ as str_append}
use webrtc_chat.Map
use webrtc_chat.Agent.Track
use webrtc_chat.Agent.Track.{
  TrackHandle, RtpCodecParameters, Binding, bound, no_opus, already_bound, get_opus_codec_params,
}
use webrtc_chat.Agent.Duplicate.{
  TrackDuplicater, TrackLocal, TrackLocalContext, SourceContext, first_codec, source_of,
  bind_locked, bind_from, upstream_bound,
}

abbrev pub codec_of : Binding → Option RtpCodecParameters
codec_of (bound codec) = some codec
codec_of no_opus = none
codec_of already_bound = none

abbrev pub left_by : TrackHandle → Outcome TrackHandle → TrackHandle
left_by track (done track') = track'
left_by track (panic fault) = track

-- A TrackHandle as an upstream: the context that it is given has one codec.
abbrev pub track_local : String → TrackLocal TrackHandle
track_local track_id = record {
  id = track_id;
  bind =
      λ source track. let r = Track.bind source.id (source.codec ∷ []) track in (r.0, codec_of r.1);
  unbind = λ source track. left_by track (Track.unbind source.id track);
}

one_codec :
    (ctx_id : String) (c : RtpCodecParameters) (track : TrackHandle)
    → Map.get track.stop_chan ctx_id ≡ none
    → codec_of (Track.bind ctx_id (c ∷ []) track).1
      ≡ (if c.mime_type == "audio/opus" then some c else none)
unfolding Track.bind get_opus_codec_params
one_codec ctx_id c track absent = elim (Bool-cases (c.mime_type == "audio/opus")) [
  | inl opus ↦ rw (opus, Track.bind, get_opus_codec_params) (rw absent refl)
  | inr other ↦ rw (other, Track.bind, get_opus_codec_params) refl
]

upstream_bound-codec :
    {P U : Type 0} (ctx : TrackLocalContext) (source : SourceContext) (dup : TrackDuplicater P U)
    (upstream : U) (o : Option RtpCodecParameters)
    → (upstream_bound ctx source dup (upstream, o)).1 ≡ o
unfolding upstream_bound
upstream_bound-codec ctx source dup upstream none = refl
upstream_bound-codec ctx source dup upstream (some codec) = refl

-- The first Bind of a duplicated track returns the first codec of its context if that is Opus, and
-- an error otherwise, also when another codec of the context is Opus.
pub first_bind_codec :
    {P : Type 0} (track_id : String) (ctx : TrackLocalContext) (dup : TrackDuplicater P TrackHandle)
    → dup.source_context ≡ none
    → Map.get dup.upstream.stop_chan (str_append "source-" track_id) ≡ none
    → let c = first_codec ctx.codec_parameters in
      (bind_locked (track_local track_id) ctx dup).1
      ≡ (if c.mime_type == "audio/opus" then some c else none)
unfolding bind_locked bind_from
first_bind_codec track_id ctx dup unbound absent =
    let source = source_of (track_local track_id) ctx in
    ap (λ o. (bind_from (track_local track_id) ctx dup o).1) unbound
    ∙ upstream_bound-codec ctx source dup _ _
    ∙ one_codec (str_append "source-" track_id) (first_codec ctx.codec_parameters) dup.upstream
        absent
