-- ===== src/Agent/Bots/Echo.antt =====
-- webrtc-agents/pkg/handlers: the bots do not answer each other's acknowledgments and pongs.
use webrtc_chat.Prelude.{
  String, ◌≡◌, refl, Option, none, some, List, [], ◌∷◌, ◌++◌, inl, inr, Option-cases,
}
use webrtc_chat.Agent.Bots.{
  ChatMessage, ChatMessagePing, ChatMessagePingDirection, ping, pong, Clock, Counters, ack_of,
  pong_of, on_ping, on_echo, is_control, on_counter,
}

-- The answers of a bot to several messages.
abbrev pub answers : (Option ChatMessage → List ChatMessage) → List ChatMessage → List ChatMessage
answers bot [] = []
answers bot (m ∷ l) = bot (some m) ++ answers bot l

pong_of-answers :
    (d : ChatMessagePingDirection) (clock later : Clock) (msg : ChatMessage) (p : ChatMessagePing)
    → answers (on_ping later) (pong_of d clock msg p) ≡ []
unfolding on_ping
pong_of-answers ping clock later msg p = refl
pong_of-answers pong clock later msg p = refl
pong_of-answers (ChatMessagePingDirection.other s) clock later msg p = refl

pongs :
    (clock later : Clock) (received : Option ChatMessage)
    → answers (on_ping later) (on_ping clock received) ≡ []
unfolding on_ping
pongs clock later none = refl
pongs clock later (some msg) = elim (Option-cases msg.ping_part) [
  | inl e ↦ rw (e, on_ping) refl
  | inr (p, e) ↦ rw (e, on_ping) (pong_of-answers p.direction clock later msg p)
]

-- No bot answers an acknowledgment that a bot has sent, and the ping handler does not answer what a
-- ping handler has sent; so no two of them keep each other busy that way.
pub acknowledgments_end :
    (clock later : Clock) (msg : ChatMessage) (received : Option ChatMessage)
    (help node_id : String) (schedule : List (Counters → Counters)) (counters : Counters)
    → (on_echo later (some (ack_of clock msg)) ≡ [])
      × (on_ping later (some (ack_of clock msg)) ≡ [])
      × (on_counter help schedule later node_id (some (ack_of clock msg)) counters ≡ ([], counters))
      × (answers (on_ping later) (on_ping clock received) ≡ [])
unfolding on_echo is_control on_ping on_counter
acknowledgments_end clock later msg received help node_id schedule counters =
    (refl, refl, refl, pongs clock later received)
