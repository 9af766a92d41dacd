-- ===== src/Agent/Track/Streams.antt =====
-- webrtc-agents/pkg/tracks/handle.go: the streams that Bind starts and Unbind stops.
use webrtc_chat.Prelude.{
  ℕ, suc, ◌<◌, ◌≤◌, String, true, false, ◌≡◌, refl, none, some, List, [], ◌∷◌, ◌↔◌, inl, inr, done,
  ◌==◌, eq_iff, eq_refl, nat_eq, arith, Bool-cases, Option-cases, if◌then◌else◌,
}
use webrtc_chat.Map
use webrtc_chat.Map.{get-put, get-remove, get-empty}
use webrtc_chat.Agent.Track.{
  TrackHandle, new_track_handle, get_opus_codec_params, bind, unbind, Call, binds, unbinds, call,
  calls,
}

-- The channels of the map are open, and they are the open channels of the streams.
pub record IsConsistent (track : TrackHandle) : Type 0 where
  pub listed :
      (id : String) (c : ℕ)
      → Map.get track.stop_chan id ≡ some c
      → (c < track.next) × (track.is_closed c ≡ false) × (track.made_for c ≡ id)
  pub streaming :
      (c : ℕ)
      → c < track.next
      → track.is_closed c ≡ false
      → Map.get track.stop_chan (track.made_for c) ≡ some c
  pub unmade : (c : ℕ) → track.next ≤ c → track.is_closed c ≡ false

abbrev started : String → TrackHandle → TrackHandle
started ctx_id track = record track {
  stop_chan = Map.put track.stop_chan ctx_id track.next;
  made_for = λ c. if nat_eq track.next c then ctx_id else track.made_for c;
  next = suc track.next;
}

started-IsConsistent :
    (ctx_id : String) (track : TrackHandle)
    → Map.get track.stop_chan ctx_id ≡ none
    → IsConsistent track
    → IsConsistent (started ctx_id track)
started-IsConsistent ctx_id track absent v = record {
  listed = λ id c at. elim (Bool-cases (ctx_id == id)) [
    | inl here ↦
        let same : ctx_id ≡ id = (eq_iff ctx_id id).0 here in
        ground (arith, get-put track.stop_chan ctx_id id track.next, v.unmade track.next)
    | inr other ↦ ground (arith, get-put track.stop_chan ctx_id id track.next, v.listed id c)
  ];
  streaming = λ c made running. elim (Bool-cases (nat_eq track.next c)) [
    | inl new ↦ ground (arith, get-put track.stop_chan ctx_id ctx_id track.next, eq_refl ctx_id)
    | inr old ↦
        let was = v.streaming c (ground arith) running in
        rw old (
          ground (
            arith,
            get-put track.stop_chan ctx_id (track.made_for c) track.next,
            eq_iff ctx_id (track.made_for c),
          ))
  ];
  unmade = λ c late. v.unmade c (omega (arith, late));
}

stopped-IsConsistent :
    (ctx_id : String) (c₀ : ℕ) (track : TrackHandle)
    → Map.get track.stop_chan ctx_id ≡ some c₀
    → IsConsistent track
    → IsConsistent (record track {
      stop_chan = Map.remove track.stop_chan ctx_id;
      is_closed = λ d. if nat_eq c₀ d then true else track.is_closed d;
    })
stopped-IsConsistent ctx_id c₀ track at₀ v = record {
  listed = λ id c at. elim (Bool-cases (ctx_id == id)) [
    | inl gone ↦ absurd (ground (arith, get-remove track.stop_chan ctx_id id))
    | inr other ↦
        let kept : Map.get track.stop_chan id ≡ some c =
          ground (arith, get-remove track.stop_chan ctx_id id) in
        let (made, is_open, own) = v.listed id c kept in
        let (_, _, own₀) = v.listed ctx_id c₀ at₀ in (made, ground (arith, eq_iff ctx_id id), own)
  ];
  streaming = λ c made running.
      let other : nat_eq c₀ c ≡ false = ground arith in
      let was = v.streaming c made (ground arith) in
      ground (
        arith,
        get-remove track.stop_chan ctx_id (track.made_for c),
        eq_iff ctx_id (track.made_for c),
      );
  unmade = λ c late.
      let (made, is_open, own) = v.listed ctx_id c₀ at₀ in ground (arith, v.unmade c late);
}

call-IsConsistent :
    (c : Call) (track : TrackHandle)
    → IsConsistent track
    → (track' : TrackHandle) × (call c track ≡ done track') × IsConsistent track'
unfolding call bind unbind
call-IsConsistent (binds ctx_id codecs) track v =
    elim (Option-cases (get_opus_codec_params codecs)) [
      | inl e ↦ (track, rw (e, bind) refl, v)
      | inr (codec, e) ↦ elim (Option-cases (Map.get track.stop_chan ctx_id)) [
        | inl absent ↦ (
          started ctx_id track,
          rw (e, bind) (rw absent refl),
          started-IsConsistent ctx_id track absent v,
        )
        | inr (c₀, at) ↦ (track, rw (e, bind) (rw at refl), v)
      ]
    ]
call-IsConsistent (unbinds ctx_id) track v = elim (Option-cases (Map.get track.stop_chan ctx_id)) [
  | inl e ↦ (track, rw (e, call, unbind) refl, v)
  | inr (c₀, at) ↦
      let (made, is_open, own) = v.listed ctx_id c₀ at in
      (_, rw (at, call, unbind) (rw is_open refl), stopped-IsConsistent ctx_id c₀ track at v)
]

calls-IsConsistent :
    (cs : List Call) (track : TrackHandle)
    → IsConsistent track
    → (track' : TrackHandle) × (calls cs track ≡ done track') × IsConsistent track'
unfolding calls
calls-IsConsistent [] track v = (track, refl, v)
calls-IsConsistent (c ∷ cs) track v =
    let (track₁, ran, w) = call-IsConsistent c track v in
    let (track', rest, w') = calls-IsConsistent cs track₁ w in (track', rw ran rest, w')

new-IsConsistent : IsConsistent new_track_handle
new-IsConsistent = record {
  listed = λ id c at. absurd (cc (get-empty {V = ℕ} id, at));
  streaming = λ c made running. absurd (omega (arith, made));
  unmade = λ c late. refl;
}

-- Whatever calls of Bind and Unbind a new track gets, none panics; and of the streams that were
-- started for a context at most one is not told to stop, which is the one whose channel is kept for
-- the context: its next Unbind closes it.
pub calls_lem :
    (cs : List Call)
    → (track : TrackHandle) × (calls cs new_track_handle ≡ done track)
      × ((c : ℕ)
          → c < track.next
          → (track.is_closed c ≡ false) ↔ (Map.get track.stop_chan (track.made_for c) ≡ some c))
calls_lem cs =
    let (track, ran, v) = calls-IsConsistent cs new_track_handle new-IsConsistent in
    (track, ran, λ c made. (v.streaming c made, λ at. (v.listed (track.made_for c) c at).1))
