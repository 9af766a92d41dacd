-- ===== src/Agent/TrackBot/Answers.antt =====
-- webrtc-agents/pkg/handlers/track_dc_handler.go: what a message to the track bot ends with.
use webrtc_chat.Prelude.{
  String, ◌≡◌, Option, none, some, List, [], ◌∷◌, ◌++◌, ◌⊎◌, Outcome, done, ◌>>=◌,
}
use Prim.Native.String.{◌++◌ as str_append}
use webrtc_chat.Payloads.{offer}
use webrtc_chat.Agent.Signalling.{sdp_message}
use webrtc_chat.Agent.Bots.{ChatMessage, Clock, respond, ack_of}
use webrtc_chat.Agent.TrackBot.{Media, TrackEntry, Answer}
use webrtc_chat.Agent.TrackBot.Senders.{IsPlaying, Cleared}

-- How a message ends: nothing for the signalling server, or the peer is told what plays and the
-- server gets the offer. The entry that there is after it plays one track at most, after those left.
pub data Obeyed {P S T D : Type 0} (media : Media P S T D) (senders : P → List S)
    (our_node_id remote_node_id : String) (left : List S) (found : Option (TrackEntry P S))
    (r : Outcome (Answer P S)) : Type 0 where
  no_entry :
      (msgs : List ChatMessage)
      → found ≡ none
      → r ≡ done (none, msgs, [])
      → Obeyed media senders our_node_id remote_node_id left found r
  kept :
      (entry entry' : TrackEntry P S) (left' : List S) (msgs : List ChatMessage)
      → found ≡ some entry
      → (left' ≡ left) ⊎ Cleared media left entry left'
      → IsPlaying senders left' entry'
      → r ≡ done (some entry', msgs, [])
      → Obeyed media senders our_node_id remote_node_id left found r
  offered :
      (entry entry' : TrackEntry P S) (left' : List S) (s : S) (json name : String) (clock : Clock)
      (msg : ChatMessage)
      → found ≡ some entry
      → Cleared media left entry left'
      → entry'.current_track_sender ≡ some s
      → senders entry'.connection ≡ left' ++ s ∷ []
      → r
        ≡ done (
          some entry',
          ack_of clock msg ∷ respond clock msg (str_append "Now playing: " name) ∷ [],
          sdp_message offer json our_node_id remote_node_id ∷ [],
        )
      → Obeyed media senders our_node_id remote_node_id left found r

-- The entry, if there is one, plays one track at most, after those left.
abbrev pub MayPlay : {P S : Type 0} → (P → List S) → List S → Option (TrackEntry P S) → Type 0
MayPlay senders left none = Unit {0}
MayPlay senders left (some entry) = IsPlaying senders left entry

-- An ACK goes first.
abbrev acked : {P S : Type 0} → Clock → ChatMessage → Outcome (Answer P S) → Outcome (Answer P S)
acked clock msg r = r >>= λ a. done (a.0, ack_of clock msg ∷ a.1, a.2)
