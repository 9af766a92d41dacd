-- ===== src/Examples/Messages.antt =====
-- webrtc-server/pkg/handler/handle_ws.go, run on the registry of the tests: the connection `k1`
-- sends, `k2` has registered with WebSocket 7.
use webrtc_chat.Prelude.{
  ℕ, String, ◌≡◌, refl, false, none, some, List, [], ◌∷◌, ◌++◌, done, panic, nil_dereference,
  nat_eq, ◌==◌, if◌then◌else◌,
}
use webrtc_chat.Map
use webrtc_chat.Map.Assoc.{lookup, Distinct}
use webrtc_chat.Errors.{write_failed, wrapped}
use webrtc_chat.Decimal.{decimal_04}
use webrtc_chat.Payloads.{
  RegisterPayload, EchoPayload, c2s, SdpOfferPayload, IceOfferPayload, AuthenticationType, offer,
}
use webrtc_chat.ConnReg.Update.{written}
use webrtc_chat.ConnReg.Lifecycle.{registered}
use webrtc_chat.Ws.{World, Call, handle_text_message, get_default_user_name, pong}
use webrtc_chat.Ws.Frame.{Framed}
use webrtc_chat.Ws.Frame.Message.{handle_text_message-Framed}
use webrtc_chat.Ws.Forward.{
  writer_of, delivered, sdp_message, ice_message, sdp_offer_forwarded, ice_offer_forwarded,
}
use webrtc_chat.Ws.Broadcast.{copies}
use webrtc_chat.Ws.Register.{
  register_message, goes_online, acknowledged, resolved, echo_message, register_lem, ping_lem,
}
use webrtc_chat.Examples.Registry.{opened, registry, range, texts, k1_stored}

abbrev pub world : World
world = record { registry = registry; sent = [] }

-- A message of `k1`, whose WebSocket is 5; every write works.
abbrev pub call : Call
call = record {
  entries = range;
  attributes = texts;
  broken = λ s ws. false;
  now = 120;
  now_ms = 120500;
  key = "k1";
  conn = 5;
  num_id = 0;
  logged_in_as = none;
  auth_type = AuthenticationType.none;
}

-- The same, but writes to WebSocket 7 fail.
abbrev call_broken : Call
call_broken = record call { broken = λ s ws. nat_eq ws 7 }

default_name-run : get_default_user_name 42 ≡ "user0042"
unfolding get_default_user_name decimal_04
default_name-run = refl

abbrev sdp : SdpOfferPayload
sdp = record { from_node_id = "k1"; to_node_id = "k2"; offer_json = "{}"; offer_type = offer }

abbrev ice : IceOfferPayload
ice = record { from_node_id = "k1"; to_node_id = "k2"; offer_json = "{}" }

sdp_offer_forwarded_example :
    handle_text_message call (some (sdp_message "k1" sdp)) world
    ≡ delivered call
        (sdp_message "k1" sdp)
        world
        (writer_of registry "k2")
        (done (world, some (wrapped (wrapped write_failed))))
sdp_offer_forwarded_example = sdp_offer_forwarded call "k1" sdp world refl

ice_offer_forwarded_example :
    handle_text_message call_broken (some (ice_message "k1" ice)) world ≡ panic nil_dereference
unfolding Map.get Map.put Map.empty
ice_offer_forwarded_example = ice_offer_forwarded call_broken "k1" ice world refl

abbrev pub nameless : RegisterPayload
nameless = record { node_name = ""; token = none }

register_lem_example :
    let cr' =
      written registry "k1"
        (registered (resolved call nameless) AuthenticationType.none (some 5) 120 opened) in
    (sends : List (String × ℕ)) × Distinct sends
    × ((k : String) → lookup k sends ≡ (if "k1" == k then some 5 else writer_of registry k))
    × (handle_text_message call (some (register_message nameless)) world
        ≡ done (
          record {
            registry = cr';
            sent =
                []
                ++ copies (goes_online "k1") sends
                ++ (5, acknowledged "k1" (resolved call nameless)) ∷ [];
          },
          none,
        ))
register_lem_example = register_lem call nameless world opened refl k1_stored (λ s ws. refl)

abbrev ping : EchoPayload
ping = record {
  direction = c2s;
  correlation_id = "c";
  server_timestamp = 0;
  timestamp = 77;
  seq_id = 3;
}

handle_text_message-Framed_example : Framed "k1" world (record {
  registry = written registry "k1" (record opened { last_heartbeat = some 120 });
  sent = (5, pong call ping) ∷ [];
})
handle_text_message-Framed_example =
    handle_text_message-Framed call (some (echo_message ping)) world
      (record {
        registry = written registry "k1" (record opened { last_heartbeat = some 120 });
        sent = (5, pong call ping) ∷ [];
      })
      none (ping_lem call ping world opened refl refl k1_stored refl)
