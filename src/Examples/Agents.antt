-- ===== src/Examples/Agents.antt =====
-- webrtc-agents: packets, the search for the restart option, and runs of an agent on an engine whose
-- connections list their calls.
use mathlib.Core.List.{Memᴰ}
use webrtc_chat.Prelude.{
  ℕ, ◌%◌, ◌≤◌, String, ◌≡◌, refl, true, false, none, some, List, [], ◌∷◌, arith, done, nat_eq,
  length, take, if◌then◌else◌, ◌==◌,
}
use webrtc_chat.Map
use webrtc_chat.Map.{entries_range}
use webrtc_chat.Map.{Map}
use webrtc_chat.Payloads.{MessagePayload, SdpOfferPayload, IceOfferPayload, offer}
use webrtc_chat.Ws.{no_message}
use webrtc_chat.Agent.Patch.{MessagePatchOrder, append, marshal, unmarshal_message_patch_order}
use webrtc_chat.Agent.Patch.Layout.{unmarshal-marshal}
use webrtc_chat.Agent.Sdp.{ascii, contains}
use webrtc_chat.Agent.Signalling.{Engine, PeerConnEntry, SignallingHandler, is_empty}
use webrtc_chat.Agent.Signalling.Changes.{
  Event, message, change, disconnected, failed, closed, run, new_signalling_handler,
}
use webrtc_chat.Agent.Signalling.Restart.{changes, restarts_bounded}
use webrtc_chat.Agent.Signalling.Runs.{queue_unused}
use webrtc_chat.Agent.Signalling.Reconnect.{offer_message, old_close_drops_new_entry}

abbrev hello : MessagePatchOrder
hello = record { message_id = 109 ∷ 49 ∷ []; kind = append; value = 104 ∷ 105 ∷ [] }

marshal-run : marshal hello ≡ done (0 ∷ 0 ∷ 2 ∷ 109 ∷ 49 ∷ 0 ∷ 2 ∷ 104 ∷ 105 ∷ [])
unfolding marshal
marshal-run = refl

unmarshal-marshal_example :
    (bytes : List ℕ) × (marshal hello ≡ done bytes)
    × (unmarshal_message_patch_order bytes
        ≡ some (record hello { value = take (length hello.value % 65536) hello.value }))
unmarshal-marshal_example = unmarshal-marshal hello (omega arith)

abbrev description : List ℕ
description = ascii "a=ice-options:restart"

contains-run :
    (contains (ascii "abcabd") (ascii "abd") ≡ true) × (contains (ascii "ab") (ascii "abc") ≡ false)
unfolding contains
contains-run = (refl, refl)

-- A connection is the list of its calls, a description or a candidate is its text.
abbrev traced : Engine (List String) String String
traced = record {
  new_peer_connection = some [];
  set_remote_description = λ pc d. ("remote" ∷ d ∷ pc, true);
  set_local_description = λ pc d. ("local" ∷ d ∷ pc, true);
  create_answer = λ pc. (pc, some "answer");
  create_restart_offer = λ pc. (pc, some "restart");
  add_ice_candidate = λ pc c. ("candidate" ∷ c ∷ pc, true);
  close = λ pc. "close" ∷ pc;
  parse_description = λ s. if s == "" then none else some s;
  parse_candidate = λ s. some s;
  print_description = λ d. some d;
  sdp = λ d. [];
}

abbrev sdp_offer : SdpOfferPayload
sdp_offer = record {
  offer_type = offer;
  offer_json = "sdp";
  from_node_id = "bob";
  to_node_id = "bot";
}

abbrev ice_offer : IceOfferPayload
ice_offer = record { offer_json = "ice"; from_node_id = "bob"; to_node_id = "bot" }

abbrev entry : ℕ → PeerConnEntry (List String) String String
entry n = record { connection = []; remote_offers = "sdp" ∷ []; queued = []; attempts = n }

abbrev agent : ℕ → SignallingHandler (List String) String String
agent n = record {
  node_id = "bot";
  peers = Map.put Map.empty "bob" 0;
  heap = λ r. if nat_eq r 0 then some (entry n) else none;
  next = 1;
}

restarts_bounded_example :
    length (run traced (changes 0 "bob" (failed ∷ disconnected ∷ failed ∷ closed ∷ [])) (agent 1)).1
    ≤ 2
restarts_bounded_example =
    restarts_bounded traced 0 "bob" (failed ∷ disconnected ∷ failed ∷ closed ∷ []) (agent 1)
      (entry 1) refl tt

abbrev two_messages : List Event
two_messages =
    message (offer_message sdp_offer)
    ∷ message (record no_message { ice_offer = some ice_offer })
    ∷ []

abbrev after_offer : SignallingHandler (List String) String String
after_offer = (run traced two_messages new_signalling_handler).0

abbrev answered : PeerConnEntry (List String) String String
answered = record {
  connection = "candidate" ∷ "ice" ∷ "local" ∷ "answer" ∷ "remote" ∷ "sdp" ∷ [];
  remote_offers = "sdp" ∷ [];
  queued = [];
  attempts = 0;
}

after_offer-run : after_offer.heap 0 ≡ some answered
unfolding run Map.get Map.put Map.empty
after_offer-run = refl

-- The engine parses no empty text, and the one offer among the messages is not empty.
two_messages-parse :
    (m : MessagePayload) (o : SdpOfferPayload)
    → Memᴰ (message m) two_messages
    → m.sdp_offer ≡ some o
    → (d : String) × (traced.parse_description o.offer_json ≡ some d)
two_messages-parse m o (Memᴰ.head e) offers =
    let same : o ≡ sdp_offer = cc (e, offers) in ("sdp", rw same refl)
two_messages-parse m o (Memᴰ.tail (Memᴰ.head e)) offers = absurd (cc (e, offers))
two_messages-parse m o (Memᴰ.tail (Memᴰ.tail x)) offers = elim x [ ]

queue_unused_example : (is_empty answered.remote_offers ≡ false) × (answered.queued ≡ [])
queue_unused_example =
    queue_unused traced two_messages 0 answered two_messages-parse after_offer-run

old_close_drops_new_entry_example :
    let h' =
      (run traced
        (change 0 "bob" failed ∷ message (offer_message sdp_offer) ∷ change 0 "bob" closed ∷ [])
        (agent 3)).0 in
    (fresh : PeerConnEntry (List String) String String) × (h'.heap 1 ≡ some fresh)
    × (fresh.remote_offers ≡ "sdp" ∷ [])
    × (Map.get h'.peers "bob" ≡ none)
old_close_drops_new_entry_example =
    old_close_drops_new_entry traced 0 (entry 3) (agent 3) sdp_offer "sdp" [] refl refl refl refl
      refl
