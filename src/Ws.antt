-- ===== src/Ws.antt =====
-- webrtc-server/pkg/handler/handle_ws.go: what the signalling server does with one text message.
-- The state is the registry and the messages written so far, each with its WebSocket. Writes may
-- fail: `broken` says whether the next write to a WebSocket fails, given what was written. The
-- text arrives as the result of json.Unmarshal, `none` for an error. `now` is the clock's reading
-- in seconds, `now_ms` in milliseconds.
pub mod Proxy
pub mod Login
pub mod Service
pub mod Frame
pub mod Forward
pub mod Broadcast
pub mod Register
use webrtc_chat.Prelude.{
  ℕ, String, Bool, true, false, Option, none, some, List, [], ◌∷◌, ◌++◌, Outcome, done, panic,
  nil_dereference, ◌>>=◌, ◌==◌, if◌then◌else◌,
}
use Prim.Native.String.{◌++◌ as str_append}
use webrtc_chat.Map
use webrtc_chat.Map.{Map, Range}
use webrtc_chat.Errors.{Error, write_failed, bad_json, wrapped}
use webrtc_chat.Decimal.{decimal_04}
use webrtc_chat.Payloads.{
  RegisterPayload, EchoPayload, EchoDirection, c2s, s2c, NodeGoesOnline, SdpOfferPayload,
  IceOfferPayload, RenamePayload, AttributesAnnouncementPayload, MessagePayload, AuthenticationType,
}
use webrtc_chat.ConnReg
use webrtc_chat.ConnReg.{ConnRegistry, ConnRegistryData}
use webrtc_chat.User.{User}

abbrev pub Sent : Type 0
Sent = List (ℕ × MessagePayload)

pub record World : Type 0 where
  pub registry : ConnRegistry
  pub sent : Sent

-- What a call finds around it, and the arguments that handleTextMessage takes beside the message.
pub record Call : Type 0 where
  pub entries : Range ConnRegistryData
  pub attributes : Range String
  pub broken : Sent → ℕ → Bool
  pub now : ℕ
  pub now_ms : ℕ
  pub key : String
  pub conn : ℕ
  pub num_id : ℕ
  pub logged_in_as : Option User
  pub auth_type : AuthenticationType

-- A step that returns an error, or nil.
abbrev pub Step : Type 0
Step = World → Outcome (World × Option Error)

-- `if err := m; err != nil { return fmt.Errorf(…) }` and the steps that follow.
unfoldable pub check : Outcome (World × Option Error) → Step → Outcome (World × Option Error)
check m next = m >>= λ r. elim r.1 [ some e ↦ done (r.0, some (wrapped e)) | none ↦ next r.0 ]

-- An empty MessagePayload.
abbrev pub no_message : MessagePayload
no_message = record {
  node_id = "";
  register = none;
  echo = none;
  rename = none;
  online = none;
  sdp_offer = none;
  ice_offer = none;
  attributes_announcement = none;
}

-- wsConn.WriteJSON(payload)
unfoldable pub write_json : Call → ℕ → MessagePayload → Step
write_json call ws payload w =
    if call.broken w.sent ws
    then done (w, some write_failed)
    else done (record w { sent = w.sent ++ (ws, payload) ∷ [] }, none)

-- The loop of sendBroadcastMsg over the dumped entries.
unfoldable pub broadcast_to : Call → MessagePayload → List (String × ConnRegistryData) → Step
unfolding write_json check
broadcast_to call payload [] w = done (w, none)
broadcast_to call payload ((key, entry) ∷ l) w = elim entry.ws_conn [
  | none ↦ broadcast_to call payload l w
  | some ws ↦ check (write_json call ws payload w) (broadcast_to call payload l)
]

unfoldable pub send_broadcast_msg : Call → MessagePayload → Step
unfolding broadcast_to
send_broadcast_msg call payload w =
    broadcast_to call payload (call.entries.order (ConnReg.dump call.entries w.registry)) w

-- The error of a failed write is formatted with `payload.SDPOffer.ToNodeId`, which dereferences
-- a nil pointer when the payload holds no SDP offer.
unfoldable pub forward_error :
    MessagePayload → World × Option Error → Outcome (World × Option Error)
forward_error payload (w, none) = done (w, none)
forward_error payload (w, some e) = elim payload.sdp_offer [
  | none ↦ panic nil_dereference
  | some offer ↦ done (w, some (wrapped e))
]

-- The end of sendMsgTo, with the entry that GetByNodeId found.
unfoldable pub send_to_entry :
    Call → MessagePayload → World → Option ConnRegistryData → Outcome (World × Option Error)
unfolding write_json forward_error
send_to_entry call payload w none = done (w, none)
send_to_entry call payload w (some entry) = elim entry.ws_conn [
  | none ↦ done (w, none)
  | some ws ↦ write_json call ws payload w >>= forward_error payload
]

unfoldable pub send_msg_to : Call → String → MessagePayload → Step
unfolding send_to_entry
send_msg_to call node_id payload w = ConnReg.get_by_node_id call.entries w.registry node_id >>= λ r.
    elim r.1 [ some e ↦ done (w, some (wrapped e)) | none ↦ send_to_entry call payload w r.0 ]

unfoldable pub get_default_user_name : ℕ → String
unfolding decimal_04
get_default_user_name num_id = str_append "user" (decimal_04 num_id)

-- The node name that a registration ends with.
unfoldable pub resolve_name : Call → String → String
unfolding get_default_user_name
resolve_name call node_name =
    let from_login =
      if node_name == ""
      then elim call.logged_in_as [ none ↦ node_name | some user ↦ user.username ]
      else node_name in
    if from_login == "" then get_default_user_name call.num_id else from_login

-- The handler writes the name into the payload, which later steps may forward.
unfoldable pub resolve_payload : Call → MessagePayload → MessagePayload
unfolding resolve_name
resolve_payload call payload = record payload {
  register = elim payload.register [
    | none ↦ none
    | some r ↦ some (record r { node_name = resolve_name call r.node_name })
  ];
}

-- if payload.Register != nil { … }: the error of cr.Register is dropped.
unfoldable pub handle_register : Call → Option RegisterPayload → Step
unfolding send_broadcast_msg write_json check
handle_register call none w = done (w, none)
handle_register call (some r) w =
    ConnReg.register w.registry call.key r call.auth_type (some call.conn) call.now >>= λ a.
    check
      (send_broadcast_msg call (record no_message { online = some (record { node_id = call.key }) })
        (record w { registry = a.0 }))
      λ w'.
        check
          (write_json call call.conn (record no_message { register = some r; node_id = call.key })
            w')
          λ w''. done (w'', none)

-- The answer to a ping.
unfoldable pub pong : Call → EchoPayload → MessagePayload
pong call echo = record no_message {
  echo = some (record {
    direction = s2c;
    correlation_id = echo.correlation_id;
    server_timestamp = call.now_ms;
    timestamp = echo.timestamp;
    seq_id = echo.seq_id;
  });
  node_id = call.key;
}

unfoldable pub is_ping : EchoDirection → Bool
is_ping c2s = true
is_ping s2c = false
is_ping (EchoDirection.other s) = false

-- if payload.Echo != nil { … }: the error of cr.UpdateHeartbeat is dropped.
unfoldable pub handle_echo : Call → Option EchoPayload → Step
unfolding pong write_json check is_ping
handle_echo call none w = done (w, none)
handle_echo call (some echo) w =
    if is_ping echo.direction
    then (ConnReg.update_heartbeat w.registry call.key call.now >>= λ a.
        check (write_json call call.conn (pong call echo) (record w { registry = a.0 }))
          λ w'. done (w', none))
    else done (w, none)

-- if payload.AttributesAnnouncement != nil { … }: the error of cr.SetAttributes is dropped.
unfoldable pub handle_attributes : Call → Option AttributesAnnouncementPayload → Step
handle_attributes call none w = done (w, none)
handle_attributes call (some a) w =
    ConnReg.set_attributes call.attributes w.registry call.key a >>= λ r.
    done (record w { registry = r.0 }, none)

-- if payload.Rename != nil { … }
unfoldable pub handle_rename : Call → Option RenamePayload → Step
unfolding send_broadcast_msg check
handle_rename call none w = done (w, none)
handle_rename call (some r) w = ConnReg.update_preference w.registry call.key r >>= λ a.
    check (done (record w { registry = a.0 }, a.2)) λ w'.
      check
        (send_broadcast_msg call
          (record no_message {
            rename = some (record { new_preference = r.new_preference; origin_node_name = a.1 });
          })
          w')
        λ w''. done (w'', none)

-- The whole payload goes to the peer that its offer names.
unfoldable pub handle_sdp_offer : Call → MessagePayload → Option SdpOfferPayload → Step
unfolding send_msg_to check
handle_sdp_offer call payload none w = done (w, none)
handle_sdp_offer call payload (some offer) w =
    check (send_msg_to call offer.to_node_id payload w) λ w'. done (w', none)

unfoldable pub handle_ice_offer : Call → MessagePayload → Option IceOfferPayload → Step
unfolding send_msg_to check
handle_ice_offer call payload none w = done (w, none)
handle_ice_offer call payload (some offer) w =
    check (send_msg_to call offer.to_node_id payload w) λ w'. done (w', none)

-- A step that has returned an error ends the handler.
unfoldable pub and_then : Outcome (World × Option Error) → Step → Outcome (World × Option Error)
and_then m next = m >>= λ r. elim r.1 [ some e ↦ done (r.0, some e) | none ↦ next r.0 ]

-- The six parts of handleTextMessage, in its order.
unfoldable pub handle_payload : Call → MessagePayload → Step
unfolding handle_register handle_echo handle_attributes handle_rename handle_sdp_offer
    handle_ice_offer and_then
handle_payload call payload w = and_then (handle_register call payload.register w) λ w₁.
    and_then (handle_echo call payload.echo w₁) λ w₂.
      and_then (handle_attributes call payload.attributes_announcement w₂) λ w₃.
        and_then (handle_rename call payload.rename w₃) λ w₄.
          and_then (handle_sdp_offer call payload payload.sdp_offer w₄)
            λ w₅. handle_ice_offer call payload payload.ice_offer w₅

-- handleTextMessage, on a handler whose registry is set.
unfoldable pub handle_text_message : Call → Option MessagePayload → Step
unfolding handle_payload resolve_payload
handle_text_message call none w = done (w, some (wrapped bad_json))
handle_text_message call (some payload) w = handle_payload call (resolve_payload call payload) w
