-- ===== src/Examples/Services.antt =====
-- webrtc-server/pkg/handler/handle_ws.go: a connection from its open to its end.
use webrtc_chat.Prelude.{
  ◌+◌, String, true, ◌≡◌, refl, none, some, List, [], ◌∷◌, ◌++◌, Outcome, done, panic,
  nil_dereference, ◌==◌, if◌then◌else◌,
}
use webrtc_chat.Map
use webrtc_chat.ConnReg
use webrtc_chat.ConnReg.Lifecycle.{entry_of}
use webrtc_chat.Ws.{Call}
use webrtc_chat.Ws.Register.{register_message}
use webrtc_chat.Ws.Service.{
  Service, Event, text, other_type, reset, read_error, time_out, reading, resetting, reporting,
  serve_http, happen_all,
}
use webrtc_chat.Ws.Service.Ends.{waiting, time_out_lem, time_out_strands}
use webrtc_chat.Examples.Messages.{world, call, nameless}

abbrev newcomer : Call
newcomer = record call { key = "k3"; conn = 9 }

abbrev events : List Event
events = other_type ∷ text call (some (register_message nameless)) ∷ reset ∷ text call none ∷ []

abbrev service_of : Outcome Service → Service
service_of (done s) = s
service_of (panic f) = waiting world reading

served : serve_http newcomer events world ≡ done (service_of (serve_http newcomer events world))
unfolding serve_http ConnReg.register ConnReg.dump Map.get Map.put Map.entries Map.empty
served = refl

time_out_lem_example :
    (s' : Service) × (serve_http newcomer (events ++ time_out ∷ []) world ≡ done s')
    × (s'.returned ≡ true)
    × ((j : String)
        → entry_of s'.world.registry j ≡ (if "k3" == j then none else entry_of world.registry j))
    × (s'.world.registry.counter ≡ world.registry.counter + 1)
unfolding serve_http ConnReg.register ConnReg.dump Map.get Map.put Map.entries Map.empty
time_out_lem_example =
    time_out_lem newcomer events world (service_of (serve_http newcomer events world)) refl served
      refl

time_out_strands_example :
    (happen_all newcomer (time_out ∷ reset ∷ []) (waiting world resetting) ≡ panic nil_dereference)
    × ((s' : Service) × (happen_all newcomer
            (time_out ∷ read_error ∷ time_out ∷ [])
            (waiting world reading)
          ≡ done s')
        × (s'.reader ≡ reporting))
time_out_strands_example = time_out_strands newcomer world (time_out ∷ [])
