-- ===== src/Ws/Frame/Message.antt =====
-- webrtc-server/pkg/handler/handle_ws.go: what handleTextMessage leaves alone.
use webrtc_chat.Prelude.{String, ◌≡◌, Option, none, some, Outcome, done, Bool-cases, inl, inr}
use mathlib.Core.Path.{subst}
use webrtc_chat.Errors.{Error}
use webrtc_chat.Payloads.{
  RegisterPayload, EchoPayload, SdpOfferPayload, IceOfferPayload, RenamePayload,
  AttributesAnnouncementPayload, MessagePayload,
}
use webrtc_chat.ConnReg
use webrtc_chat.ConnReg.{ConnRegistry, ConnRegistryData}
use webrtc_chat.ConnReg.Update.{
  register-Written, update_heartbeat-Written, set_attributes-Written, update_preference-Written,
}
use webrtc_chat.Ws.{
  World, Call, no_message, pong, is_ping, write_json, send_broadcast_msg, send_msg_to,
  handle_register, handle_echo, handle_attributes, handle_rename, handle_sdp_offer,
  handle_ice_offer, handle_payload, handle_text_message, resolve_payload,
}
use webrtc_chat.Ws.Frame.{
  Framed, Ends, Framed-refl, Ends-check, Ends-and_then, Ends-update, Ends-write_json,
  Ends-send_msg_to, Ends-send_broadcast_msg,
}

module _ (call : Call) where
  Ends-handle_register :
      (r : Option RegisterPayload) (w : World) → Ends call.key w (handle_register call r w)
  unfolding handle_register
  Ends-handle_register none w = Framed-refl call.key w
  Ends-handle_register (some r) w =
      let online = record no_message { online = some (record { node_id = call.key }) } in
      let ack = record no_message { register = some r; node_id = call.key } in
      Ends-update call.key w
        (ConnReg.register w.registry call.key r call.auth_type (some call.conn) call.now) _
        (λ cr s e ran.
          register-Written w.registry cr call.key r call.auth_type (some call.conn) call.now s e
            ran)
        λ cr s e.
          let u = record w { registry = cr } in
          Ends-check call.key u (send_broadcast_msg call online u) _
            (Ends-send_broadcast_msg call.key call online u)
            λ v.
              Ends-check call.key v (write_json call call.conn ack v) _
                (Ends-write_json call.key call call.conn ack v) λ x. Framed-refl call.key x

  Ends-handle_echo : (r : Option EchoPayload) (w : World) → Ends call.key w (handle_echo call r w)
  unfolding handle_echo
  Ends-handle_echo none w = Framed-refl call.key w
  Ends-handle_echo (some r) w = elim (Bool-cases (is_ping r.direction)) [
    | inr e ↦ rw e (Framed-refl call.key w)
    | inl e ↦ rw e (
        Ends-update call.key w (ConnReg.update_heartbeat w.registry call.key call.now) _
          (λ cr s e ran. update_heartbeat-Written w.registry cr call.key call.now s e ran)
          λ cr s e.
            let u = record w { registry = cr } in
            Ends-check call.key u (write_json call call.conn (pong call r) u) _
              (Ends-write_json call.key call call.conn (pong call r) u) λ x. Framed-refl call.key x)
  ]

  Ends-handle_attributes :
      (r : Option AttributesAnnouncementPayload) (w : World)
      → Ends call.key w (handle_attributes call r w)
  unfolding handle_attributes
  Ends-handle_attributes none w = Framed-refl call.key w
  Ends-handle_attributes (some a) w =
      Ends-update call.key w (ConnReg.set_attributes call.attributes w.registry call.key a) _
        (λ cr s e ran. set_attributes-Written call.attributes w.registry cr call.key a s e ran)
        λ cr s e. Framed-refl call.key (record w { registry = cr })

  Ends-handle_rename :
      (r : Option RenamePayload) (w : World) → Ends call.key w (handle_rename call r w)
  unfolding handle_rename
  Ends-handle_rename none w = Framed-refl call.key w
  Ends-handle_rename (some r) w =
      Ends-update call.key w (ConnReg.update_preference w.registry call.key r) _
        (λ cr s e ran. update_preference-Written w.registry cr call.key r s e ran)
        λ cr s e.
          let u = record w { registry = cr } in
          Ends-check call.key u (done (u, e)) _ (Framed-refl call.key u) λ v.
            let m = record no_message {
              rename = some (record { new_preference = r.new_preference; origin_node_name = s });
            } in
            Ends-check call.key v (send_broadcast_msg call m v) (λ x. done (x, none))
              (Ends-send_broadcast_msg call.key call m v) λ x. Framed-refl call.key x

  Ends-handle_sdp_offer :
      (p : MessagePayload) (o : Option SdpOfferPayload) (w : World)
      → Ends call.key w (handle_sdp_offer call p o w)
  unfolding handle_sdp_offer
  Ends-handle_sdp_offer p none w = Framed-refl call.key w
  Ends-handle_sdp_offer p (some o) w =
      Ends-check call.key w (send_msg_to call o.to_node_id p w) _
        (Ends-send_msg_to call.key call o.to_node_id p w) λ x. Framed-refl call.key x

  Ends-handle_ice_offer :
      (p : MessagePayload) (o : Option IceOfferPayload) (w : World)
      → Ends call.key w (handle_ice_offer call p o w)
  unfolding handle_ice_offer
  Ends-handle_ice_offer p none w = Framed-refl call.key w
  Ends-handle_ice_offer p (some o) w =
      Ends-check call.key w (send_msg_to call o.to_node_id p w) _
        (Ends-send_msg_to call.key call o.to_node_id p w) λ x. Framed-refl call.key x

  Ends-handle_payload : (p : MessagePayload) (w : World) → Ends call.key w (handle_payload call p w)
  unfolding handle_payload
  Ends-handle_payload p w =
      Ends-and_then call.key w (handle_register call p.register w) _
        (Ends-handle_register p.register w)
        λ w₁.
          Ends-and_then call.key w₁ (handle_echo call p.echo w₁) _ (Ends-handle_echo p.echo w₁)
            λ w₂.
              Ends-and_then call.key w₂ (handle_attributes call p.attributes_announcement w₂) _
                (Ends-handle_attributes p.attributes_announcement w₂)
                λ w₃.
                  Ends-and_then call.key w₃ (handle_rename call p.rename w₃) _
                    (Ends-handle_rename p.rename w₃)
                    λ w₄.
                      Ends-and_then call.key w₄ (handle_sdp_offer call p p.sdp_offer w₄) _
                        (Ends-handle_sdp_offer p p.sdp_offer w₄)
                        λ w₅. Ends-handle_ice_offer p p.ice_offer w₅

  Ends-handle_text_message :
      (m : Option MessagePayload) (w : World) → Ends call.key w (handle_text_message call m w)
  unfolding handle_text_message
  Ends-handle_text_message none w = Framed-refl call.key w
  Ends-handle_text_message (some p) w = Ends-handle_payload (resolve_payload call p) w

Ends-done :
    (key : String) (w w' : World) (e : Option Error) (m : Outcome (World × Option Error))
    → m ≡ done (w', e)
    → Ends key w m
    → Framed key w w'
Ends-done key w w' e m h x = subst (Ends key w) h x

-- If handling a message of the connection `call.key` does not panic, then, whether or not it
-- returns an error, the entries of the other connections, the counter and the state of the map are
-- as before, and what was written before is a prefix of what is written after.
pub handle_text_message-Framed :
    (call : Call) (m : Option MessagePayload) (w w' : World) (e : Option Error)
    → handle_text_message call m w ≡ done (w', e)
    → Framed call.key w w'
handle_text_message-Framed call m w w' e ran =
    Ends-done call.key w w' e (handle_text_message call m w) ran (Ends-handle_text_message call m w)
