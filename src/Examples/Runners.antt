-- ===== src/Examples/Runners.antt =====
-- webrtc-agents/pkg/ws_runner/websocket.go: a name with two addresses, and a connection that ends just
-- after a message.
use webrtc_chat.Prelude.{
  ℕ, String, false, true, some, [], ◌∷◌, ◌≡◌, refl, inl, inr, ◌↔◌, done, panic, closed_channel,
  List, ◌==◌, if◌then◌else◌, get_elem?,
}
use webrtc_chat.Agent.Dialer.{Net, net_dial_context}
use webrtc_chat.Agent.Dialer.Attempts.{Arrived, net_dial_context-Arrived}
use webrtc_chat.Agent.Runner.{
  Loop, start_messages_loop, read, deliver, fail_read, report_read, finish, reader_ended,
}
use webrtc_chat.Agent.Reconnect.{
  WebSocketRunner, Run, fresh, connected, Event, dial, in_loop, leave, returned, run_turn,
  run_turns,
}
use webrtc_chat.Agent.Reconnect.Late.{Doomed, run_turn-panic_iff}
use webrtc_chat.Examples.Connections.{hello}

abbrev two_addresses : Net String
two_addresses = record {
  split_host_port = λ addr. inl ("server", "443");
  lookup_ip = λ network host. inl ("10.0.0.1" ∷ "10.0.0.2" ∷ []);
  join_host_port = λ ip port. ip;
  done = λ i. false;
  ctx_err = "context canceled";
  dial_context = λ i network addr. if addr == "10.0.0.2" then inl "second" else inr "refused";
}

dials_second : net_dial_context two_addresses false "tcp" "server:443" ≡ inl "second"
unfolding net_dial_context
dials_second = refl

net_dial_context-Arrived_example :
    Arrived two_addresses false "tcp" "server:443"
      (net_dial_context two_addresses false "tcp" "server:443")
net_dial_context-Arrived_example = net_dial_context-Arrived two_addresses false "tcp" "server:443"

abbrev once : WebSocketRunner
once = record { node_name = "EchoBot"; jwt_env_name = "TOKEN"; reconnect_on_disconnect = false }

abbrev cut_off : List Event
cut_off =
    dial (λ name. "") connected
    ∷ in_loop 0 (read hello)
    ∷ in_loop 0 deliver
    ∷ in_loop 0 (fail_read "EOF")
    ∷ in_loop 0 report_read
    ∷ in_loop 0 finish
    ∷ leave
    ∷ []

abbrev cut_loop : Loop
cut_loop = record start_messages_loop {
  reader = reader_ended;
  data_ch = some hello;
  finished = true;
}

abbrev over : Run
over = record { phase = returned; loops = cut_loop ∷ []; registered = "EchoBot" ∷ [] }

cut_off-run : run_turns once cut_off fresh ≡ done over
unfolding run_turns
cut_off-run = refl

run_turn-panic_iff_example :
    ((e : Event) × (run_turn once e over ≡ panic closed_channel))
    ↔ ((k : ℕ) × (l : Loop) × (get_elem? over.loops k ≡ some l) × Doomed over l)
run_turn-panic_iff_example = run_turn-panic_iff once cut_off over cut_off-run
