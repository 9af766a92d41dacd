-- ===== src/Agent/Signalling/Changes.antt =====
-- webrtc-agents/pkg/handlers/signalling_handler.go: the state changes of a peer connection, and runs
-- of events. The callback keeps the pointer of its entry and the id of the remote node. A run is
-- the loop of Serve with the callbacks among its messages; the end of the loop, when its context
-- is done, with cleanup, is left out.
use webrtc_chat.Prelude.{ℕ, String, none, some, List, [], ◌∷◌, ◌++◌}
use webrtc_chat.Map
use webrtc_chat.Payloads.{MessagePayload}
use webrtc_chat.Agent.Signalling.{
  Engine, PeerConnEntry, SignallingHandler, Sends, assign, initiate_ice_restart, handle_message,
}

-- webrtc.PeerConnectionState; `other` is one that the callback only logs.
pub data PeerConnectionState : Type 0 where
  disconnected failed connected closed other : PeerConnectionState

pub data Event : Type 0 where
  message : MessagePayload → Event
  change : ℕ → String → PeerConnectionState → Event

module _ {P D C : Type 0} (engine : Engine P D C) where
  -- The restart after a failure: an error removes the entry and closes the connection.
  unfoldable pub restart :
      ℕ → String → PeerConnEntry P D C → SignallingHandler P D C → SignallingHandler P D C × Sends
  unfolding initiate_ice_restart
  restart r remote_node_id entry h =
      let (entry, sent) = initiate_ice_restart engine h.node_id remote_node_id entry in
      elim sent [
        | some m ↦ (assign r entry h, m ∷ [])
        | none ↦ (
          assign r (record entry { connection = engine.close entry.connection })
              (record h { peers = Map.remove h.peers remote_node_id }),
          [],
        )
      ]

  -- The callback of OnConnectionStateChange.
  unfoldable pub state_changed :
      ℕ
      → String
      → PeerConnectionState
      → PeerConnEntry P D C
      → SignallingHandler P D C
      → SignallingHandler P D C × Sends
  unfolding restart
  state_changed r remote_node_id disconnected entry h = restart r remote_node_id entry h
  state_changed r remote_node_id failed entry h = restart r remote_node_id entry h
  state_changed r remote_node_id connected entry h =
      (assign r (record entry { attempts = 0 }) h, [])
  state_changed r remote_node_id closed entry h =
      (record h { peers = Map.remove h.peers remote_node_id }, [])
  state_changed r remote_node_id other entry h = (h, [])

  -- A pointer that was never handed out has no callbacks.
  unfoldable pub handle_change :
      ℕ → String → PeerConnectionState → SignallingHandler P D C → SignallingHandler P D C × Sends
  unfolding state_changed
  handle_change r remote_node_id state h = elim (h.heap r) [
    | none ↦ (h, [])
    | some entry ↦ state_changed r remote_node_id state entry h
  ]

  unfoldable pub handle_event : Event → SignallingHandler P D C → SignallingHandler P D C × Sends
  unfolding handle_message handle_change
  handle_event (message msg) h = handle_message engine msg h
  handle_event (change r remote_node_id state) h = handle_change r remote_node_id state h

  -- Events one after the other, with all that is sent.
  unfoldable pub run : List Event → SignallingHandler P D C → SignallingHandler P D C × Sends
  unfolding handle_event
  run [] h = (h, [])
  run (e ∷ events) h =
      let (h₁, sent) = handle_event e h in let (h₂, later) = run events h₁ in (h₂, sent ++ later)

-- NewSignallingHandler
abbrev pub new_signalling_handler : {P D C : Type 0} → SignallingHandler P D C
new_signalling_handler = record { node_id = ""; peers = Map.empty; heap = λ r. none; next = 0 }
