-- ===== src/Agent/Duplicate/Binding.antt =====
-- webrtc-agents/pkg/tracks/duplicate/duplicate.go: when the upstream track is bound.
use webrtc_chat.Prelude.{ℕ, String, ◌≡◌, refl, none, some, inl, inr, arith, Option-cases, ◌↔◌}
use webrtc_chat.Map
use webrtc_chat.Map.{
  Map, Range, get-put, get-remove, get-empty, get-put_self, get-put_other, get-remove-some,
  get-remove_other, get-remove_self,
}
use webrtc_chat.Agent.Duplicate.{
  TrackLocal, SourceContext, System, Step, Reach, forward_to_downstreams, write_turn, starts_bind,
  ends_bind, starts_unbind, ends_unbind, forwards, writes, here, next,
}
use webrtc_chat.Agent.Duplicate.Settled.{
  IsSettled, first, forward_to-same, same-IsSettled, starts_bind-IsSettled, starts_unbind-IsSettled,
}
use webrtc_chat.Agent.Duplicate.Settling.{ends_bind-IsSettled, ends_unbind-IsSettled}

module _ {P U : Type 0} (track : TrackLocal U) (range : Range ℕ) (buffer_size : ℕ) where
  Step-IsSettled :
      {s s' : System P U} → Step track range buffer_size s s' → IsSettled s → IsSettled s'
  unfolding forward_to_downstreams write_turn
  Step-IsSettled {s} (starts_bind ctx absent e) v = rw e (starts_bind-IsSettled s ctx absent v)
  Step-IsSettled {s} (ends_bind ctx started e) v =
      rw e (ends_bind-IsSettled track range s ctx started v)
  Step-IsSettled {s} (starts_unbind ctx settled e) v =
      rw e (starts_unbind-IsSettled s ctx settled v)
  Step-IsSettled {s} (ends_unbind n some_unbinding e) v =
      rw e (ends_unbind-IsSettled track range s n v)
  Step-IsSettled {s} (forwards pkt e) v =
      let (d, source) = forward_to-same buffer_size pkt (range.order s.dup.downstreams) s.dup in
      rw e (same-IsSettled s (forward_to_downstreams range buffer_size pkt s.dup) d source v)
  Step-IsSettled {s} (writes c e) v = rw e (same-IsSettled s (write_turn c s.dup) refl refl v)

  Reach-IsSettled :
      {upstream : U} {s : System P U}
      → Reach track range buffer_size (first upstream) s
      → IsSettled s
  Reach-IsSettled here = record {
    unbound = λ no_source id c at. absurd (cc (get-empty {V = ℕ} id, at));
    used = λ source at. absurd (cc at);
    pending = λ id h. absurd (cc (get-empty {V = Unit {0}} id, h));
  }
  Reach-IsSettled (next r st) = Step-IsSettled st (Reach-IsSettled r)

  -- However the calls of Bind and Unbind, the forwarding of packets and the writers come between one
  -- another, if a context is bound only when it is not bound and unbound only when its Bind has
  -- returned: in a state where no call is under way the upstream track is bound exactly when there
  -- is a consumer.
  pub Reach-source_context :
      (upstream : U) (s : System P U)
      → Reach track range buffer_size (first upstream) s
      → ((id : String) → Map.get s.binding id ≡ none)
      → s.unbinding ≡ 0
      → ((id : String) × ((c : ℕ) × (Map.get s.dup.downstreams id ≡ some c)))
        ↔ ((source : SourceContext) × (s.dup.source_context ≡ some source))
  Reach-source_context upstream s r no_bind no_unbind = (to, from)
    where
      v : IsSettled s
      v = Reach-IsSettled r

      to :
          (id : String) × ((c : ℕ) × (Map.get s.dup.downstreams id ≡ some c))
          → (source : SourceContext) × (s.dup.source_context ≡ some source)
      to (id, (c, at)) = elim (Option-cases s.dup.source_context) [
        | inl e ↦ absurd (cc (v.unbound e id c at, no_bind id))
        | inr found ↦ found
      ]

      from :
          (source : SourceContext) × (s.dup.source_context ≡ some source)
          → (id : String) × ((c : ℕ) × (Map.get s.dup.downstreams id ≡ some c))
      from (source, e) = elim (v.used source e) [
        | inl bound ↦ bound
        | inr unbinding ↦ absurd (omega (arith, no_unbind, unbinding))
      ]
