-- ===== src/Agent/TrackBot.antt =====
-- webrtc-agents/pkg/handlers/track_dc_handler.go: the bot that plays tracks. `P` is a peer
-- connection, `S` a sender of it, `T` a track, `D` a session description and `G` a generator; an
-- error is its text. Ids and the clock are as in Agent/Bots; `help` is the text of formatHelp.
pub mod Generators
pub mod Senders
pub mod Answers
use Prim.Native.String.{◌++◌ as str_append}
use webrtc_chat.Prelude.{
  ℕ, String, Bool, true, false, Option, none, some, List, [], ◌∷◌, ◌++◌, ◌⊎◌, inl, inr, Outcome,
  done, panic, called_panic, ◌>>=◌, ◌==◌, ◌&&◌, nat_eq, is_some, if◌then◌else◌,
}
use webrtc_chat.Text.{cut_prefix}
use webrtc_chat.Payloads.{MessagePayload, offer}
use webrtc_chat.Agent.Signalling.{sdp_message, Sends}
use webrtc_chat.Agent.Bots.{ChatMessage, Clock, respond, ack_of}

-- The calls of pion/webrtc and of encoding/json.
pub record Media (P S T D : Type 0) : Type 0 where
  pub stop : P → S → P
  pub remove_track : P → S → P × Option String
  pub add_track : P → T → P × (String ⊎ S)
  pub create_offer : P → P × (String ⊎ D)
  pub set_local_description : P → D → P × Option String
  pub marshal : D → String ⊎ String

-- The part of PeerConnEntry that this bot uses.
pub record TrackEntry (P S : Type 0) : Type 0 where
  pub connection : P
  pub current_track_sender : Option S

-- The generators by name, in their order.
unfoldable pub find_generator : {G : Type 0} → String → List (String × G) → Option G
find_generator name [] = none
find_generator name ((n, g) ∷ gens) = if n == name then some g else find_generator name gens

-- An Ogg file that was opened: what GetName, GetSampleRate and GetChannels return.
pub record OggTrack (G : Type 0) : Type 0 where
  pub name : String
  pub sample_rate : ℕ
  pub channels : ℕ
  pub generator : G

-- loadOggFile; an error is only logged.
unfoldable pub load_ogg_file :
    {G : Type 0} → (String → Option (OggTrack G)) → String → List (String × G) → List (String × G)
load_ogg_file open_file path gens = elim (open_file path) [
  | none ↦ gens
  | some t ↦
      if nat_eq t.sample_rate 48000 && nat_eq t.channels 2
      then gens ++ (t.name, t.generator) ∷ []
      else gens
]

unfoldable pub load_ogg_files :
    {G : Type 0}
    → (String → Option (OggTrack G))
    → List String
    → List (String × G)
    → List (String × G)
unfolding load_ogg_file
load_ogg_files open_file [] gens = gens
load_ogg_files open_file (path ∷ paths) gens =
    load_ogg_files open_file paths (load_ogg_file open_file path gens)

list_tracks : {G : Type 0} → List (String × G) → String
list_tracks [] = ""
list_tracks ((n, g) ∷ gens) = str_append "  - " (str_append n (str_append "\n" (list_tracks gens)))

unfoldable pub format_track_list : {G : Type 0} → List (String × G) → String
unfolding list_tracks
format_track_list [] = "No tracks available."
format_track_list (t ∷ gens) =
    str_append "Available tracks:\n"
      (str_append (list_tracks (t ∷ gens)) "\nUse /play <track_name> to play a track.")

-- How createAndAddTrack ends: an error's text, or the offer that is sent.
abbrev pub Added : Type 0
Added = String ⊎ MessagePayload

abbrev wrap : String → String → String
wrap what e = str_append what (str_append ": " e)

-- What the peer is told, and what goes to the signalling server.
abbrev pub Answer : Type 0 → Type 0 → Type 0
Answer P S = Option (TrackEntry P S) × List ChatMessage × Sends

abbrev pub played :
    {P S : Type 0} → Clock → ChatMessage → String → TrackEntry P S × Added → Answer P S
played clock msg name (entry, inl e) =
    (some entry, respond clock msg (str_append "Error: Failed to play track: " e) ∷ [], [])
played clock msg name (entry, inr m) =
    (some entry, respond clock msg (str_append "Now playing: " name) ∷ [], m ∷ [])

module _ {P S T D : Type 0} (media : Media P S T D) where
  -- The sender that is there is stopped and removed; a failed removal is only logged.
  abbrev pub forget : TrackEntry P S → Option S → TrackEntry P S
  forget entry none = entry
  forget entry (some sender) = record {
    connection = (media.remove_track (media.stop entry.connection sender) sender).0;
    current_track_sender = none;
  }

  -- From SetLocalDescription on.
  unfoldable pub send_offer :
      String → String → D → TrackEntry P S → Outcome (TrackEntry P S × Added)
  send_offer our_node_id remote_node_id d entry =
      let (pc, failed) = media.set_local_description entry.connection d in
      let entry' : TrackEntry P S = record entry { connection = pc } in
      elim failed [
        | some e ↦ done (entry', inl (wrap "failed to set local description" e))
        | none ↦ elim (media.marshal d) [
          | inl e ↦ done (entry', inl (wrap "failed to marshal offer" e))
          | inr json ↦
              if our_node_id == ""
              then panic called_panic
              else done (entry', inr (sdp_message offer json our_node_id remote_node_id))
        ]
      ]

  -- From CreateOffer on.
  unfoldable pub make_offer : String → String → TrackEntry P S → Outcome (TrackEntry P S × Added)
  unfolding send_offer
  make_offer our_node_id remote_node_id entry =
      let (pc, made) = media.create_offer entry.connection in
      let entry' : TrackEntry P S = record entry { connection = pc } in
      elim made [
        | inl e ↦ done (entry', inl (wrap "failed to create offer" e))
        | inr d ↦ send_offer our_node_id remote_node_id d entry'
      ]

  -- From AddTrack on, over what it returns.
  unfoldable pub after_add :
      String → String → TrackEntry P S → P × (String ⊎ S) → Outcome (TrackEntry P S × Added)
  unfolding make_offer
  after_add our_node_id remote_node_id entry (pc, inl e) =
      done (record entry { connection = pc }, inl (wrap "failed to add track to peer connection" e))
  after_add our_node_id remote_node_id entry (pc, inr sender) =
      make_offer our_node_id remote_node_id
        (record { connection = pc; current_track_sender = some sender })

module _ {P S T D G : Type 0} (media : Media P S T D) where
  -- createAndAddTrack; NewTrackHandle makes `T` and does not fail.
  unfoldable pub create_and_add_track :
      (G → T)
      → String
      → String
      → List (String × G)
      → String
      → TrackEntry P S
      → Outcome (TrackEntry P S × Added)
  unfolding find_generator after_add
  create_and_add_track new_track our_node_id remote_node_id gens name entry =
      elim (find_generator name gens) [
        | none ↦ done (entry, inl (str_append "generator not found: " name))
        | some g ↦
            let cleared = forget media entry entry.current_track_sender in
            after_add media our_node_id remote_node_id cleared
              (media.add_track cleared.connection (new_track g))
      ]

  -- The command /play, on the entry of the peer if there is one.
  unfoldable pub play :
      (G → T)
      → Clock
      → String
      → String
      → List (String × G)
      → ChatMessage
      → String
      → Option (TrackEntry P S)
      → Outcome (Answer P S)
  unfolding create_and_add_track
  play new_track clock our_node_id remote_node_id gens msg name found =
      if is_some (find_generator name gens)
      then elim found [
        | none ↦ done (none, [], [])
        | some entry ↦
            create_and_add_track new_track our_node_id remote_node_id gens name entry >>= λ r.
            done (played clock msg name r)
      ]
      else done (
        found,
        respond clock msg (
              str_append "Error: Track '"
                (str_append name "' not found. Use /list to see available tracks."))
            ∷ [],
        [],
      )

  -- The commands.
  unfoldable pub obey :
      String
      → (G → T)
      → Clock
      → String
      → String
      → List (String × G)
      → ChatMessage
      → String
      → Option (TrackEntry P S)
      → Outcome (Answer P S)
  unfolding play format_track_list cut_prefix
  obey help new_track clock our_node_id remote_node_id gens msg text found =
      if text == "/start"
      then done (found, respond clock msg help ∷ [], [])
      else if text == "/list"
      then done (found, respond clock msg (format_track_list gens) ∷ [], [])
      else elim (cut_prefix text "/play ") [
        | none ↦ done (found, [], [])
        | some name ↦
            if name == ""
            then done (found, [], [])
            else play new_track clock our_node_id remote_node_id gens msg name found
      ]

  -- The callback of the chat channel: an ACK for every text, and then the command.
  unfoldable pub on_track_message :
      String
      → (G → T)
      → Clock
      → String
      → String
      → List (String × G)
      → Option ChatMessage
      → Option (TrackEntry P S)
      → Outcome (Answer P S)
  unfolding obey
  on_track_message help new_track clock our_node_id remote_node_id gens none found =
      done (found, [], [])
  on_track_message help new_track clock our_node_id remote_node_id gens (some msg) found =
      if is_some msg.ack then done (found, [], []) else elim msg.message [
        | none ↦ done (found, [], [])
        | some text ↦
            obey help new_track clock our_node_id remote_node_id gens msg text found >>= λ a.
            done (a.0, ack_of clock msg ∷ a.1, a.2)
      ]
