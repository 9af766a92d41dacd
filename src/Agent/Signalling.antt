-- ===== src/Agent/Signalling.antt =====
-- webrtc-agents/pkg/handlers/signalling_handler.go and common.go: what an agent does with the
-- messages of the signalling server and with the state changes of its peer connections. The library
-- pion/webrtc is a parameter, `Engine`: a connection is a value `P` that its calls replace, `D` is a
-- session description and `C` an ICE candidate. Entries of the store are pointers, which the
-- callbacks of a connection keep: `heap` holds what they point to.
pub mod Changes
pub mod Restart
pub mod Queue
pub mod Runs
pub mod Reconnect
use webrtc_chat.Prelude.{
  ℕ, suc, ◌+◌, String, Bool, true, false, Option, none, some, List, [], ◌∷◌, ◌++◌, ◌==◌, nat_eq,
  leb, if◌then◌else◌,
}
use webrtc_chat.Map
use webrtc_chat.Map.{Map}
use webrtc_chat.Payloads.{
  SdpOfferPayload, IceOfferPayload, OfferType, offer, answer, MessagePayload,
}
use webrtc_chat.Ws.{no_message}
use webrtc_chat.Agent.Sdp.{contains_ice_restart_option}

-- The calls of pion/webrtc and of encoding/json. A call on a connection returns its next state and
-- whether it succeeded.
pub record Engine (P D C : Type 0) : Type 0 where
  pub new_peer_connection : Option P
  pub set_remote_description : P → D → P × Bool
  pub set_local_description : P → D → P × Bool
  pub create_answer : P → P × Option D
  pub create_restart_offer : P → P × Option D
  pub add_ice_candidate : P → C → P × Bool
  pub close : P → P
  pub parse_description : String → Option D
  pub parse_candidate : String → Option C
  pub print_description : D → Option String
  pub sdp : D → List ℕ

-- PeerConnEntry, without its lock and its track.
pub record PeerConnEntry (P D C : Type 0) : Type 0 where
  pub connection : P
  pub remote_offers : List D
  pub queued : List C
  pub attempts : ℕ

-- SignallingHandler: the node id among its properties, and its store of connections. `next` is the
-- next free pointer.
pub record SignallingHandler (P D C : Type 0) : Type 0 where
  pub node_id : String
  pub peers : Map ℕ
  pub heap : ℕ → Option (PeerConnEntry P D C)
  pub next : ℕ

-- What is sent to the signalling server.
abbrev pub Sends : Type 0
Sends = List MessagePayload

abbrev pub max_ice_restart_attempts : ℕ
max_ice_restart_attempts = 3

module _ {P D C : Type 0} where
  -- A write through a pointer.
  abbrev pub assign : ℕ → PeerConnEntry P D C → SignallingHandler P D C → SignallingHandler P D C
  assign r entry h = record h { heap = λ q. if nat_eq r q then some entry else h.heap q }

  -- GetPeerConnEntry: the pointer, and the entry that it points to.
  abbrev pub stored : String → SignallingHandler P D C → Option (ℕ × PeerConnEntry P D C)
  stored remote_node_id h = elim (Map.get h.peers remote_node_id) [
    | none ↦ none
    | some r ↦ elim (h.heap r) [ none ↦ none | some entry ↦ some (r, entry) ]
  ]

  -- NextICERestartAttempt
  unfoldable pub next_ice_restart_attempt : PeerConnEntry P D C → PeerConnEntry P D C × ℕ × Bool
  next_ice_restart_attempt entry =
      let n = entry.attempts + 1 in
      (record entry { attempts = n }, n, leb n max_ice_restart_attempts)

abbrev pub sdp_message : OfferType → String → String → String → MessagePayload
sdp_message kind offer_json from_node_id to_node_id = record no_message {
  sdp_offer = some (record {
    offer_type = kind;
    offer_json = offer_json;
    from_node_id = from_node_id;
    to_node_id = to_node_id;
  });
}

abbrev pub is_offer : OfferType → Bool
is_offer offer = true
is_offer answer = false
is_offer (OfferType.other s) = false

abbrev pub is_empty : {A : Type 0} → List A → Bool
is_empty [] = true
is_empty (x ∷ xs) = false

module _ {P D C : Type 0} (engine : Engine P D C) where
  -- From SetLocalDescription to the message that is sent; `none` is an error.
  unfoldable pub send_local :
      OfferType
      → String
      → String
      → D
      → PeerConnEntry P D C
      → PeerConnEntry P D C × Option MessagePayload
  send_local kind from_node_id to_node_id d entry =
      let (pc, ok) = engine.set_local_description entry.connection d in
      let entry' = record entry { connection = pc } in
      if ok
      then elim (engine.print_description d) [
        | none ↦ (entry', none)
        | some json ↦ (entry', some (sdp_message kind json from_node_id to_node_id))
      ]
      else (entry', none)

  -- InitiateICERestart
  unfoldable pub initiate_ice_restart :
      String → String → PeerConnEntry P D C → PeerConnEntry P D C × Option MessagePayload
  unfolding next_ice_restart_attempt send_local
  initiate_ice_restart from_node_id to_node_id entry =
      let (entry, attempts, ok) = next_ice_restart_attempt entry in
      if ok
      then (let (pc, made) = engine.create_restart_offer entry.connection in
          let entry' = record entry { connection = pc } in
          elim made [
            | none ↦ (entry', none)
            | some d ↦ send_local offer from_node_id to_node_id d entry'
          ])
      else (entry, none)

  -- for _, iceCandidate := range queuedICE { AddICECandidate }: errors are only logged.
  unfoldable pub add_candidates : P → List C → P
  add_candidates pc [] = pc
  add_candidates pc (c ∷ cs) = add_candidates (engine.add_ice_candidate pc c).0 cs

  -- The end of handleSDPOffer.
  unfoldable pub flush : PeerConnEntry P D C → PeerConnEntry P D C
  unfolding add_candidates
  flush entry = record entry {
    connection = add_candidates entry.connection entry.queued;
    queued = [];
  }

  -- A restart offer clears the queue.
  unfoldable pub clear_on_restart : D → PeerConnEntry P D C → PeerConnEntry P D C
  unfolding contains_ice_restart_option
  clear_on_restart d entry =
      if contains_ice_restart_option (engine.sdp d) then record entry { queued = [] } else entry

  -- From CreateAnswer on.
  unfoldable pub create_and_send :
      String → String → PeerConnEntry P D C → PeerConnEntry P D C × Option MessagePayload
  unfolding send_local
  create_and_send node_id remote_node_id entry =
      let (pc, made) = engine.create_answer entry.connection in
      let entry' = record entry { connection = pc } in
      elim made [
        | none ↦ (entry', none)
        | some a ↦ send_local answer node_id remote_node_id a entry'
      ]

  -- The answer to an offer.
  unfoldable pub answer_offer :
      String → String → D → PeerConnEntry P D C → PeerConnEntry P D C × Option MessagePayload
  unfolding clear_on_restart create_and_send
  answer_offer node_id remote_node_id d entry =
      create_and_send node_id remote_node_id (clear_on_restart d entry)

  -- handleSDPOffer once the description is parsed.
  unfoldable pub accept :
      String → SdpOfferPayload → D → PeerConnEntry P D C → PeerConnEntry P D C × Sends
  unfolding answer_offer flush
  accept node_id sdp_offer d entry =
      let (pc, ok) = engine.set_remote_description entry.connection d in
      let entry = record entry { remote_offers = entry.remote_offers ++ d ∷ []; connection = pc } in
      if ok
      then (if is_offer sdp_offer.offer_type
          then (let (entry, sent) = answer_offer node_id sdp_offer.from_node_id d entry in
              elim sent [ none ↦ (entry, []) | some m ↦ (flush entry, m ∷ []) ])
          else (flush entry, []))
      else (entry, [])

  -- createPeerConnection
  unfoldable pub create_peer_connection : Option (PeerConnEntry P D C)
  create_peer_connection = elim engine.new_peer_connection [
    | none ↦ none
    | some pc ↦ some (record { connection = pc; remote_offers = []; queued = []; attempts = 0 })
  ]

  unfoldable pub receive :
      SdpOfferPayload
      → ℕ
      → PeerConnEntry P D C
      → SignallingHandler P D C
      → SignallingHandler P D C × Sends
  unfolding accept
  receive sdp_offer r entry h = elim (engine.parse_description sdp_offer.offer_json) [
    | none ↦ (h, [])
    | some d ↦ let (entry', sent) = accept h.node_id sdp_offer d entry in (assign r entry' h, sent)
  ]

  unfoldable pub handle_sdp_offer :
      SdpOfferPayload → SignallingHandler P D C → SignallingHandler P D C × Sends
  unfolding receive create_peer_connection
  handle_sdp_offer sdp_offer h = elim (stored sdp_offer.from_node_id h) [
    | some found ↦ receive sdp_offer found.0 found.1 h
    | none ↦ elim create_peer_connection [
      | none ↦ (h, [])
      | some entry ↦ receive sdp_offer h.next entry (
          assign h.next entry
            (record h { peers = Map.put h.peers sdp_offer.from_node_id h.next; next = suc h.next }))
    ]
  ]

  -- The end of handleICEOffer: the candidate is queued while no offer has come.
  unfoldable pub take_candidate : C → PeerConnEntry P D C → PeerConnEntry P D C
  take_candidate c entry =
      if is_empty entry.remote_offers
      then record entry { queued = entry.queued ++ c ∷ [] }
      else record entry { connection = (engine.add_ice_candidate entry.connection c).0 }

  unfoldable pub handle_ice_offer :
      IceOfferPayload → SignallingHandler P D C → SignallingHandler P D C
  unfolding take_candidate
  handle_ice_offer ice_offer h = elim (stored ice_offer.from_node_id h) [
    | none ↦ h
    | some found ↦ elim (engine.parse_candidate ice_offer.offer_json) [
      | none ↦ h
      | some c ↦ assign found.0 (take_candidate c found.1) h
    ]
  ]

  -- handleMessage: a node id, or else an SDP offer, or else an ICE offer.
  unfoldable pub handle_message :
      MessagePayload → SignallingHandler P D C → SignallingHandler P D C × Sends
  unfolding handle_sdp_offer handle_ice_offer
  handle_message msg h =
      if msg.node_id == ""
      then elim msg.sdp_offer [
        | some sdp_offer ↦ handle_sdp_offer sdp_offer h
        | none ↦ elim msg.ice_offer [
          | some ice_offer ↦ (handle_ice_offer ice_offer h, [])
          | none ↦ (h, [])
        ]
      ]
      else (record h { node_id = msg.node_id }, [])
