-- ===== src/Agent/TrackBot/Senders.antt =====
-- webrtc-agents/pkg/handlers/track_dc_handler.go: the tracks that a connection sends.
use mathlib.Core.Path.{subst}
use mathlib.Core.List.{append-nil}
use webrtc_chat.Prelude.{
  String, false, ◌≡◌, refl, sym, ap, ◌∙◌, Option, none, some, List, [], ◌∷◌, ◌++◌, ◌⊎◌, inl, inr,
  Outcome, done, ◌==◌, Option-cases, Sum-cases,
}
use webrtc_chat.Payloads.{offer}
use webrtc_chat.Agent.Signalling.{sdp_message}
use webrtc_chat.Agent.TrackBot.{
  Media, TrackEntry, find_generator, Added, forget, send_offer, make_offer, after_add,
  create_and_add_track,
}

-- What pion/webrtc documents of the senders of a connection: GetSenders lists them in the order in
-- which they were added. RemoveTrack takes the last one off, or returns an error and leaves all.
pub record MediaLaws {P S T D : Type 0} (media : Media P S T D) (senders : P → List S)
    : Type 0 where
  pub stops : (p : P) (s : S) → senders (media.stop p s) ≡ senders p
  pub removes :
      (p : P) (s : S) (left : List S)
      → (media.remove_track p s).1 ≡ none
      → senders p ≡ left ++ s ∷ []
      → senders (media.remove_track p s).0 ≡ left
  pub keeps :
      (p : P) (s : S) (e : String)
      → (media.remove_track p s).1 ≡ some e
      → senders (media.remove_track p s).0 ≡ senders p
  pub adds :
      (p p' : P) (t : T) (s : S)
      → media.add_track p t ≡ (p', inr s)
      → senders p' ≡ senders p ++ s ∷ []
  pub fails :
      (p p' : P) (t : T) (e : String) → media.add_track p t ≡ (p', inl e) → senders p' ≡ senders p
  pub offers : (p : P) → senders (media.create_offer p).0 ≡ senders p
  pub describes : (p : P) (d : D) → senders (media.set_local_description p d).0 ≡ senders p

abbrev pub option_list : {S : Type 0} → Option S → List S
option_list none = []
option_list (some s) = s ∷ []

-- The connection sends the track of the entry's sender after those that are left from before.
abbrev pub IsPlaying : {P S : Type 0} → (P → List S) → List S → TrackEntry P S → Type 0
IsPlaying senders left entry =
    senders entry.connection ≡ left ++ option_list entry.current_track_sender

-- What is left when the sender of an entry is removed: what was left before, if there is none or the
-- removal succeeds; else the sender too, whose error is only logged.
pub data Cleared {P S T D : Type 0} (media : Media P S T D) (left : List S) (entry : TrackEntry P S)
    : List S → Type 0 where
  removed :
      ((s : S)
        → entry.current_track_sender ≡ some s
        → (media.remove_track (media.stop entry.connection s) s).1 ≡ none)
      → Cleared media left entry left
  stays :
      (s : S) (e : String)
      → entry.current_track_sender ≡ some s
      → (media.remove_track (media.stop entry.connection s) s).1 ≡ some e
      → Cleared media left entry (left ++ s ∷ [])

-- How createAndAddTrack ends: with an error, or with an offer and one track after those left.
pub data OneTrack {P S T D : Type 0} (media : Media P S T D) (senders : P → List S)
    (our_node_id remote_node_id : String) (left : List S) (entry : TrackEntry P S)
    (r : Outcome (TrackEntry P S × Added)) : Type 0 where
  failed :
      (left' : List S) (entry' : TrackEntry P S) (e : String)
      → (left' ≡ left) ⊎ Cleared media left entry left'
      → IsPlaying senders left' entry'
      → r ≡ done (entry', inl e)
      → OneTrack media senders our_node_id remote_node_id left entry r
  sent :
      (left' : List S) (entry' : TrackEntry P S) (s : S) (json : String)
      → Cleared media left entry left'
      → entry'.current_track_sender ≡ some s
      → senders entry'.connection ≡ left' ++ s ∷ []
      → r ≡ done (entry', inr (sdp_message offer json our_node_id remote_node_id))
      → OneTrack media senders our_node_id remote_node_id left entry r

module _ {P S T D : Type 0} (media : Media P S T D) (senders : P → List S)
    (laws : MediaLaws media senders) where
  forget-Cleared :
      (left : List S) (pc : P) (o : Option S)
      → senders pc ≡ left ++ option_list o
      → let entry : TrackEntry P S = record { connection = pc; current_track_sender = o } in
        (left' : List S) × Cleared media left entry left'
        × (senders (forget media entry o).connection ≡ left')
        × ((forget media entry o).current_track_sender ≡ none)
  forget-Cleared left pc none v =
      (left, removed (λ s at. absurd (cc at)), v ∙ append-nil left, refl)
  forget-Cleared left pc (some s) v =
      let now = laws.stops pc s ∙ v in
      elim (Option-cases (media.remove_track (media.stop pc s) s).1) [
        | inl fine ↦ (
          left,
          removed (λ s' at.
              subst (λ x. (media.remove_track (media.stop pc x) x).1 ≡ none) (cc at) fine),
          laws.removes _ s left fine now,
          refl,
        )
        | inr (e, bad) ↦ (left ++ s ∷ [], stays s e refl bad, laws.keeps _ s e bad ∙ now, refl)
      ]

  module _ (our_node_id remote_node_id : String) (left left' : List S) (entry : TrackEntry P S)
      (named : (our_node_id == "") ≡ false) (cleared : Cleared media left entry left') where
    send_offer-OneTrack :
        (d : D) (pc : P) (s : S)
        → senders pc ≡ left' ++ s ∷ []
        → OneTrack media senders our_node_id remote_node_id left entry (
            send_offer media our_node_id remote_node_id d
              (record { connection = pc; current_track_sender = some s }))
    unfolding send_offer
    send_offer-OneTrack d pc s v =
        let now = laws.describes pc d ∙ v in
        elim (Option-cases (media.set_local_description pc d).1) [
          | inr (e, bad) ↦ rw (bad, send_offer) (failed left' _ _ (inr cleared) now refl)
          | inl good ↦ elim (Sum-cases (media.marshal d)) [
            | inl (e, bad) ↦ rw (good, bad, send_offer) (failed left' _ _ (inr cleared) now refl)
            | inr (json, fine) ↦
                rw (good, fine, named, send_offer) (sent left' _ s json cleared refl now refl)
          ]
        ]

    make_offer-OneTrack :
        (pc : P) (s : S)
        → senders pc ≡ left' ++ s ∷ []
        → OneTrack media senders our_node_id remote_node_id left entry (
            make_offer media our_node_id remote_node_id
              (record { connection = pc; current_track_sender = some s }))
    unfolding make_offer
    make_offer-OneTrack pc s v =
        let now = laws.offers pc ∙ v in
        elim (Sum-cases (media.create_offer pc).1) [
          | inl (e, bad) ↦ rw (bad, make_offer) (failed left' _ _ (inr cleared) now refl)
          | inr (d, made) ↦ rw (made, make_offer) (send_offer-OneTrack d _ s now)
        ]

    after_add-OneTrack :
        (now : TrackEntry P S) (t : T) (r : P × (String ⊎ S))
        → media.add_track now.connection t ≡ r
        → senders now.connection ≡ left'
        → now.current_track_sender ≡ none
        → OneTrack media senders our_node_id remote_node_id left entry
            (after_add media our_node_id remote_node_id now r)
    unfolding after_add
    after_add-OneTrack now t (pc, inl e) ran rest idle =
        failed left' _ _ (inr cleared)
          (laws.fails _ pc t e ran
            ∙ rest
            ∙ sym (ap (λ o. left' ++ option_list o) idle ∙ append-nil left'))
          refl
    after_add-OneTrack now t (pc, inr s) ran rest idle =
        make_offer-OneTrack pc s (laws.adds _ pc t s ran ∙ ap (λ xs. xs ++ s ∷ []) rest)

  pub create_and_add_track-OneTrack :
      {G : Type 0} (new_track : G → T) (our_node_id remote_node_id : String)
      (gens : List (String × G)) (name : String) (left : List S) (entry : TrackEntry P S)
      → (our_node_id == "") ≡ false
      → IsPlaying senders left entry
      → OneTrack media senders our_node_id remote_node_id left entry
          (create_and_add_track media new_track our_node_id remote_node_id gens name entry)
  unfolding create_and_add_track
  create_and_add_track-OneTrack new_track our remote gens name left entry named v =
      elim (Option-cases (find_generator name gens)) [
        | inl missing ↦ rw (missing, create_and_add_track) (failed left entry _ (inl refl) v refl)
        | inr (g, found) ↦
            let (left', cleared, rest, idle) =
              forget-Cleared left entry.connection entry.current_track_sender v in
            rw (found, create_and_add_track)
              (after_add-OneTrack our remote left left' entry named cleared _ (new_track g) _ refl
                rest idle)
      ]
