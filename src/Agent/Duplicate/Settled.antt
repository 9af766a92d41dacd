-- ===== src/Agent/Duplicate/Settled.antt =====
-- webrtc-agents/pkg/tracks/duplicate/duplicate.go: what holds between the calls that hold the mutex, and
-- the starts of Bind and Unbind.
use webrtc_chat.Prelude.{
  ℕ, suc, ◌<◌, String, false, ◌≡◌, refl, ◌∙◌, ap, sym, none, some, List, [], ◌∷◌, ◌⊎◌, inl, inr,
  ◌==◌, eq_iff, arith, Bool-cases, Option-cases,
}
use webrtc_chat.Map
use webrtc_chat.Map.{
  Map, Range, get-put, get-remove, get-empty, get-put_self, get-put_other, get-remove-some,
  get-remove_other, get-remove_self,
}
use webrtc_chat.Agent.Duplicate.{
  TrackDuplicater, TrackLocalContext, SourceContext, System, new_track_duplicater, store_consumer,
  drop_consumer, forward_to, send_to,
}

module _ {P U : Type 0} where
  abbrev pub Bound : System P U → String → Type 0
  Bound s id = (c : ℕ) × (Map.get s.dup.downstreams id ≡ some c)

  pub record IsSettled (s : System P U) : Type 0 where
    pub unbound :
        s.dup.source_context ≡ none
        → (id : String) (c : ℕ) → Map.get s.dup.downstreams id ≡ some c
        → Map.get s.binding id ≡ some tt
    pub used :
        (source : SourceContext)
        → s.dup.source_context ≡ some source
        → ((id : String) × Bound s id) ⊎ (0 < s.unbinding)
    pub pending : (id : String) → Map.get s.binding id ≡ some tt → Bound s id

  abbrev pub first : U → System P U
  first upstream = record {
    dup = new_track_duplicater upstream;
    binding = Map.empty;
    unbinding = 0;
  }

  pub drop_consumer-downstreams :
      (id : String) (dup : TrackDuplicater P U)
      → ((drop_consumer id dup).downstreams ≡ Map.remove dup.downstreams id)
        × ((drop_consumer id dup).source_context ≡ dup.source_context)
  unfolding drop_consumer
  drop_consumer-downstreams id dup = elim (Option-cases (Map.get dup.downstreams id)) [
    | inl e ↦ rw (e, drop_consumer) (refl, refl)
    | inr (c, e) ↦ rw (e, drop_consumer) (refl, refl)
  ]

  pub forward_to-same :
      (buffer_size : ℕ) (pkt : P) (l : List (String × ℕ)) (dup : TrackDuplicater P U)
      → ((forward_to buffer_size pkt l dup).downstreams ≡ dup.downstreams)
        × ((forward_to buffer_size pkt l dup).source_context ≡ dup.source_context)
  unfolding forward_to
  forward_to-same buffer_size pkt [] dup = (refl, refl)
  forward_to-same buffer_size pkt ((id, c) ∷ l) dup =
      forward_to-same buffer_size pkt l (send_to buffer_size pkt c dup)

  -- What a step that leaves the map and the source context keeps.
  pub same-IsSettled :
      (s : System P U) (dup : TrackDuplicater P U)
      → dup.downstreams ≡ s.dup.downstreams
      → dup.source_context ≡ s.dup.source_context
      → IsSettled s
      → IsSettled (record s { dup = dup })
  same-IsSettled s dup d e v = record {
    unbound = λ none id c at. v.unbound (sym e ∙ none) id c (rw d at at);
    used = λ source some_source. rw d (v.used source (sym e ∙ some_source));
    pending = λ id h. rw d (v.pending id h);
  }

  -- Both maps get the id.
  pub starts_bind-IsSettled :
      (s : System P U) (ctx : TrackLocalContext)
      → Map.get s.dup.downstreams ctx.id ≡ none
      → IsSettled s
      → IsSettled
          (record s { dup = store_consumer ctx s.dup; binding = Map.put s.binding ctx.id tt })
  unfolding store_consumer
  starts_bind-IsSettled s ctx absent v = record {
    unbound = λ no_source id c at. elim (Bool-cases (ctx.id == id)) [
      | inl own ↦ get-put s.binding ctx.id id tt ∙ rw own refl
      | inr other ↦
          get-put_other s.binding ctx.id id tt other
          ∙ v.unbound no_source id c
              (sym (get-put_other s.dup.downstreams ctx.id id s.dup.next other) ∙ at)
    ];
    used = λ source e. inl (ctx.id, (s.dup.next, get-put_self s.dup.downstreams ctx.id s.dup.next));
    pending = λ id h. elim (Bool-cases (ctx.id == id)) [
      | inl own ↦ (s.dup.next, get-put s.dup.downstreams ctx.id id s.dup.next ∙ rw own refl)
      | inr other ↦
          let (c, at) = v.pending id (sym (get-put_other s.binding ctx.id id tt other) ∙ h) in
          (c, get-put_other s.dup.downstreams ctx.id id s.dup.next other ∙ at)
    ];
  }

  pub starts_unbind-IsSettled :
      (s : System P U) (ctx : TrackLocalContext)
      → Map.get s.binding ctx.id ≡ none
      → IsSettled s
      → IsSettled (record s { dup = drop_consumer ctx.id s.dup; unbinding = suc s.unbinding })
  starts_unbind-IsSettled s ctx settled v =
      let (d, e) = drop_consumer-downstreams ctx.id s.dup in
      record {
        unbound = λ no_source id c at.
            v.unbound (sym e ∙ no_source) id c
              (get-remove-some s.dup.downstreams ctx.id id (rw d at at)).1;
        used = λ source at. inr (omega arith);
        pending = λ id h.
            let (c, at) = v.pending id h in
            let apart : (ctx.id == id) ≡ false = elim (Bool-cases (ctx.id == id)) [
              | inl same ↦ absurd (cc ((eq_iff ctx.id id).0 same, settled, h))
              | inr other ↦ other
            ] in
            (c, ap (λ m. Map.get m id) d ∙ get-remove_other s.dup.downstreams ctx.id id apart ∙ at);
      }
