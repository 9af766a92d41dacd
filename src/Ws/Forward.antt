-- ===== src/Ws/Forward.antt =====
-- webrtc-server/pkg/handler/handle_ws.go: what a text message with one part does, when the part is
-- an SDP offer, an ICE offer or a rename.
use webrtc_chat.Prelude.{
  ℕ, String, ◌≡◌, refl, ◌∙◌, ap, false, Option, none, some, [], ◌∷◌, ◌++◌, Outcome, done, panic,
  nil_dereference, if◌then◌else◌, inl, inr, Bool-cases, Option-cases,
}
use webrtc_chat.Errors.{Error, write_failed, wrapped}
use webrtc_chat.Payloads.{SdpOfferPayload, IceOfferPayload, RenamePayload, MessagePayload}
use webrtc_chat.ConnReg.{ConnRegistry, ConnRegistryData, clone_conn_registry_data}
use webrtc_chat.ConnReg.Search.{get_by_node_id-eq-get, cloned}
use webrtc_chat.ConnReg.Lifecycle.{entry_of, update_preference-unregistered}
use webrtc_chat.Ws.{
  World, Call, no_message, write_json, forward_error, send_to_entry, send_msg_to,
  handle_text_message, handle_payload, resolve_payload, handle_register, handle_echo,
  handle_attributes, handle_rename, handle_sdp_offer, handle_ice_offer, and_then, check,
}

-- The WebSocket of a connection that has registered.
abbrev pub writer : Option ConnRegistryData → Option ℕ
writer none = none
writer (some entry) = entry.ws_conn

abbrev pub writer_of : ConnRegistry → String → Option ℕ
writer_of cr node_id = writer (entry_of cr node_id)

-- Sending to a WebSocket if there is one, with `failed` for a write that fails.
abbrev pub delivered :
    Call
    → MessagePayload
    → World
    → Option ℕ
    → Outcome (World × Option Error)
    → Outcome (World × Option Error)
delivered call payload w none failed = done (w, none)
delivered call payload w (some ws) failed =
    if call.broken w.sent ws
    then failed
    else done (record w { sent = w.sent ++ (ws, payload) ∷ [] }, none)

pub writer-cloned : (o : Option ConnRegistryData) → writer (cloned o) ≡ writer o
unfolding clone_conn_registry_data
writer-cloned none = refl
writer-cloned (some entry) = refl

module _ (call : Call) (payload : MessagePayload) (w : World) where
  abbrev failure : Outcome (World × Option Error)
  failure = forward_error payload (w, some write_failed)

  send_to_entry_lem :
      (entry : Option ConnRegistryData)
      → send_to_entry call payload w entry ≡ delivered call payload w (writer entry) failure
  unfolding send_to_entry write_json forward_error
  send_to_entry_lem none = refl
  send_to_entry_lem (some entry) = elim (Option-cases entry.ws_conn) [
    | inl e ↦ rw e refl
    | inr (ws, e) ↦ elim (Bool-cases (call.broken w.sent ws)) [
      | inl b ↦ rw (e, b) refl
      | inr b ↦ rw (e, b) refl
    ]
  ]

  send_msg_to_lem :
      (node_id : String)
      → w.registry.datastore.closed ≡ false
      → send_msg_to call node_id payload w
        ≡ delivered call payload w (writer_of w.registry node_id) failure
  unfolding send_msg_to
  send_msg_to_lem node_id is_open =
      let entry = entry_of w.registry node_id in
      rw (get_by_node_id-eq-get call.entries w.registry node_id is_open) (
        send_to_entry_lem (cloned entry)
        ∙ ap (λ o. delivered call payload w o failure) (writer-cloned entry))

  check-delivered :
      (o : Option ℕ) (failed : Outcome (World × Option Error))
      → check (delivered call payload w o failed) (λ w'. done (w', none))
        ≡ delivered call payload w o (check failed λ w'. done (w', none))
  unfolding check
  check-delivered none failed = refl
  check-delivered (some ws) failed = elim (Bool-cases (call.broken w.sent ws)) [
    | inl b ↦ rw b refl
    | inr b ↦ rw b refl
  ]

  and_then-delivered :
      (o : Option ℕ) (failed : Outcome (World × Option Error))
      → and_then (delivered call payload w o failed) (λ w'. done (w', none))
        ≡ delivered call payload w o (and_then failed λ w'. done (w', none))
  unfolding and_then
  and_then-delivered none failed = refl
  and_then-delivered (some ws) failed = elim (Bool-cases (call.broken w.sent ws)) [
    | inl b ↦ rw b refl
    | inr b ↦ rw b refl
  ]

-- Messages with one part.
abbrev pub sdp_message : String → SdpOfferPayload → MessagePayload
sdp_message node_id offer = record no_message { node_id = node_id; sdp_offer = some offer }

abbrev pub ice_message : String → IceOfferPayload → MessagePayload
ice_message node_id offer = record no_message { node_id = node_id; ice_offer = some offer }

abbrev pub rename_message : String → RenamePayload → MessagePayload
rename_message node_id rename = record no_message { node_id = node_id; rename = some rename }

-- On an open registry a text message with just an SDP offer writes the whole message once, to the
-- WebSocket of the connection that the offer names, and changes nothing else. Without such a
-- connection, or before it has registered, nothing is written and there is no error; a failing write
-- gives an error and changes nothing.
pub sdp_offer_forwarded :
    (call : Call) (node_id : String) (offer : SdpOfferPayload) (w : World)
    → w.registry.datastore.closed ≡ false
    → handle_text_message call (some (sdp_message node_id offer)) w
      ≡ delivered call
          (sdp_message node_id offer)
          w
          (writer_of w.registry offer.to_node_id)
          (done (w, some (wrapped (wrapped write_failed))))
unfolding handle_text_message handle_payload resolve_payload handle_register handle_echo
    handle_attributes handle_rename handle_sdp_offer handle_ice_offer and_then forward_error check
sdp_offer_forwarded call node_id offer w is_open =
    let message = sdp_message node_id offer in
    let o = writer_of w.registry offer.to_node_id in
    ap (λ m. and_then (check m λ w'. done (w', none)) λ w'. done (w', none))
      (send_msg_to_lem call message w offer.to_node_id is_open)
    ∙ ap (λ m. and_then m λ w'. done (w', none))
        (check-delivered call message w o (done (w, some (wrapped write_failed))))
    ∙ and_then-delivered call message w o (done (w, some (wrapped (wrapped write_failed))))

-- The same for a message with just an ICE offer, but for a failing write: that panics, as the error
-- is formatted with the peer of an SDP offer that the message does not hold.
pub ice_offer_forwarded :
    (call : Call) (node_id : String) (offer : IceOfferPayload) (w : World)
    → w.registry.datastore.closed ≡ false
    → handle_text_message call (some (ice_message node_id offer)) w
      ≡ delivered call
          (ice_message node_id offer)
          w
          (writer_of w.registry offer.to_node_id)
          (panic nil_dereference)
unfolding handle_text_message handle_payload resolve_payload handle_register handle_echo
    handle_attributes handle_rename handle_sdp_offer handle_ice_offer and_then forward_error check
ice_offer_forwarded call node_id offer w is_open =
    ap (λ m. check m (λ w'. done (w', none)))
      (send_msg_to_lem call (ice_message node_id offer) w offer.to_node_id is_open)
    ∙ check-delivered call (ice_message node_id offer) w (writer_of w.registry offer.to_node_id)
        (panic nil_dereference)

-- A text message with just a rename, from a connection that has not registered, panics.
pub rename_unregistered :
    (call : Call) (node_id : String) (rename : RenamePayload) (w : World) (entry : ConnRegistryData)
    → w.registry.datastore.closed ≡ false
    → entry_of w.registry call.key ≡ some entry
    → entry.node_name ≡ none
    → handle_text_message call (some (rename_message node_id rename)) w ≡ panic nil_dereference
unfolding handle_text_message handle_payload resolve_payload handle_register handle_echo
    handle_attributes handle_rename and_then
rename_unregistered call node_id rename w entry is_open stored unnamed =
    rw (update_preference-unregistered w.registry call.key rename entry is_open stored unnamed) refl
