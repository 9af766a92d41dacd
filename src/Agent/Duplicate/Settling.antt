-- ===== src/Agent/Duplicate/Settling.antt =====
-- webrtc-agents/pkg/tracks/duplicate/duplicate.go: the ends of Bind and Unbind, with the upstream track.
use webrtc_chat.Prelude.{
  ℕ, String, true, false, ◌≡◌, refl, ◌∙◌, ap, sym, none, some, List, [], ◌∷◌, inl, inr, eq_refl,
  nat_eq, arith, Bool-cases, Option-cases, length, if◌then◌else◌,
}
use webrtc_chat.Map
use webrtc_chat.Map.{
  Map, Range, get-put, get-remove, get-empty, get-put_self, get-put_other, get-remove-some,
  get-remove_other, get-remove_self,
}
use webrtc_chat.Map.Assoc.{lookup}
use webrtc_chat.Agent.Duplicate.{
  TrackDuplicater, TrackLocal, TrackLocalContext, System, drop_consumer, bind_locked, unbind_locked,
  consumer_count, source_of, upstream_bound, bind_from, unbind_from,
}
use webrtc_chat.Agent.Duplicate.Settled.{IsSettled, drop_consumer-downstreams}

-- A count of zero means that the map is empty, and another that it is not.
no_entry :
    {A : Type 0} (id : String) (c : ℕ) (l : List (String × ℕ))
    → nat_eq (length l) 0 ≡ true
    → lookup id l ≡ some c
    → A
unfolding lookup
no_entry id c [] e h = absurd (cc h)
no_entry id c ((k, d) ∷ l) e h = absurd (ground arith)

first_entry :
    (range : Range ℕ) (m : Map ℕ) (l : List (String × ℕ))
    → range.order m ≡ l
    → nat_eq (length l) 0 ≡ false
    → (id : String) × ((c : ℕ) × (Map.get m id ≡ some c))
unfolding lookup
first_entry range m [] e h = absurd (ground arith)
first_entry range m ((k, c) ∷ l) e h =
    let found : lookup k ((k, c) ∷ l) ≡ some c = rw (eq_refl k) refl in
    (k, (c, sym (range.visits m k) ∙ ap (lookup k) e ∙ found))

module _ {P U : Type 0} (track : TrackLocal U) (range : Range ℕ) where
  pub ends_unbind-IsSettled :
      (s : System P U) (n : ℕ)
      → IsSettled s
      → IsSettled (record s { dup = unbind_locked track range s.dup; unbinding = n })
  unfolding unbind_locked unbind_from consumer_count
  ends_unbind-IsSettled s n v =
      let count = length (range.order s.dup.downstreams) in
      elim (Option-cases s.dup.source_context) [
        | inl e ↦
            let ran : unbind_locked track range s.dup ≡ s.dup =
              ap (unbind_from track count s.dup) e in
            rw ran (record {
              unbound = v.unbound;
              used = λ source at. absurd (cc (e, at));
              pending = v.pending;
            })
        | inr (source, e) ↦ elim (Bool-cases (nat_eq count 0)) [
          | inl empty ↦
              let freed : TrackDuplicater P U = record s.dup {
                source_context = none;
                upstream = track.unbind source s.dup.upstream;
              } in
              let ran : unbind_locked track range s.dup ≡ freed =
                ap (unbind_from track count s.dup) e ∙ ap (λ b. if b then freed else s.dup) empty in
              rw ran (record {
                unbound = λ no_source id c at.
                    no_entry id c (range.order s.dup.downstreams) empty
                      (range.visits s.dup.downstreams id ∙ at);
                used = λ other at. absurd (cc at);
                pending = v.pending;
              })
          | inr some_there ↦
              let freed : TrackDuplicater P U = record s.dup {
                source_context = none;
                upstream = track.unbind source s.dup.upstream;
              } in
              let ran : unbind_locked track range s.dup ≡ s.dup =
                ap (unbind_from track count s.dup) e
                ∙ ap (λ b. if b then freed else s.dup) some_there in
              rw ran (record {
                unbound = v.unbound;
                used = λ other at. inl (
                    first_entry range s.dup.downstreams (range.order s.dup.downstreams) refl
                      some_there);
                pending = v.pending;
              })
        ]
      ]

  -- The id is no longer pending; the map keeps it, unless the upstream fails.
  pub ends_bind-IsSettled :
      (s : System P U) (ctx : TrackLocalContext)
      → Map.get s.binding ctx.id ≡ some tt
      → IsSettled s
      → IsSettled (record s {
        dup = (bind_locked track ctx s.dup).0;
        binding = Map.remove s.binding ctx.id;
      })
  unfolding bind_locked bind_from upstream_bound
  ends_bind-IsSettled s ctx started v = elim (Option-cases s.dup.source_context) [
    | inr (source, e) ↦
        let ran : (bind_locked track ctx s.dup).0 ≡ record s.dup { codec = source.codec } =
          ap (λ o. (bind_from track ctx s.dup o).0) e in
        rw ran (record {
          unbound = λ no_source id c at. absurd (cc (e, no_source));
          used = v.used;
          pending = λ id h. v.pending id (get-remove-some s.binding ctx.id id h).1;
        })
    | inl e ↦
        let source = source_of track ctx in
        let answer = track.bind source s.dup.upstream in
        let ran : (bind_locked track ctx s.dup).0 ≡ (upstream_bound ctx source s.dup answer).0 =
          ap (λ o. (bind_from track ctx s.dup o).0) e in
        elim (Option-cases answer.1) [
          | inr (codec, bound) ↦
              let now : TrackDuplicater P U = record s.dup {
                upstream = answer.0;
                source_context = some source;
                codec = codec;
              } in
              let done : (bind_locked track ctx s.dup).0 ≡ now =
                ran ∙ ap (λ o. (upstream_bound ctx source s.dup (answer.0, o)).0) bound in
              rw done (record {
                unbound = λ no_source id c at. absurd (cc no_source);
                used = λ other at. inl (ctx.id, v.pending ctx.id started);
                pending = λ id h. v.pending id (get-remove-some s.binding ctx.id id h).1;
              })
          | inl failed ↦
              let dup' : TrackDuplicater P U = record s.dup { upstream = answer.0 } in
              let done : (bind_locked track ctx s.dup).0 ≡ drop_consumer ctx.id dup' =
                ran ∙ ap (λ o. (upstream_bound ctx source s.dup (answer.0, o)).0) failed in
              let (d, no_source) = drop_consumer-downstreams ctx.id dup' in
              rw done (record {
                unbound = λ _ id c at.
                    let (apart, there) = get-remove-some s.dup.downstreams ctx.id id (rw d at at) in
                    get-remove_other s.binding ctx.id id apart ∙ v.unbound e id c there;
                used = λ other at. absurd (cc (no_source, e, at));
                pending = λ id h.
                    let (apart, still) = get-remove-some s.binding ctx.id id h in
                    let (c, at) = v.pending id still in
                    (
                      c,
                      ap (λ m. Map.get m id) d
                          ∙ get-remove_other s.dup.downstreams ctx.id id apart
                          ∙ at,
                    );
              })
        ]
  ]
