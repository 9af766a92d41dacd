-- ===== src/Ws/Register.antt =====
-- webrtc-server/pkg/handler/handle_ws.go: a registration, a ping, and text that is not a message.
use webrtc_chat.Prelude.{
  ℕ, String, ◌≡◌, refl, ◌∙◌, ap, false, Option, none, some, List, [], ◌∷◌, ◌++◌, done,
  if◌then◌else◌, inl, inr, Bool-cases, Option-cases, eq_iff, ◌==◌,
}
use text.Mathlib.TextLemmas.{append_cancel_left, append-eq-nil_iff, cons≢nil}
use webrtc_chat.Decimal.{decimal_04, decimal_04-injective}
use webrtc_chat.Map.Assoc.{lookup, Distinct}
use webrtc_chat.Payloads.{RegisterPayload, EchoPayload, MessagePayload, c2s}
use webrtc_chat.User.{User}
use webrtc_chat.ConnReg.{ConnRegistryData, register, register_op, update_heartbeat, heartbeat_op}
use webrtc_chat.ConnReg.Update.{written, get-written, update-stored}
use webrtc_chat.ConnReg.Lifecycle.{entry_of, registered}
use webrtc_chat.Ws.{
  Sent, World, Call, no_message, pong, is_ping, resolve_name, get_default_user_name,
  resolve_payload, write_json, check, handle_text_message, handle_payload, handle_register,
  handle_echo, handle_attributes, handle_rename, handle_sdp_offer, handle_ice_offer, and_then,
}
use webrtc_chat.Ws.Forward.{writer, writer_of}
use webrtc_chat.Ws.Broadcast.{copies, send_broadcast_msg_lem}

abbrev pub register_message : RegisterPayload → MessagePayload
register_message r = record no_message { register = some r }

-- The message that tells the others, and the answer.
abbrev pub goes_online : String → MessagePayload
goes_online key = record no_message { online = some (record { node_id = key }) }

abbrev pub acknowledged : String → RegisterPayload → MessagePayload
acknowledged key r = record no_message { register = some r; node_id = key }

abbrev pub resolved : Call → RegisterPayload → RegisterPayload
resolved call r = record r { node_name = resolve_name call r.node_name }

-- A text message with just a registration, on an open registry that holds the connection and with
-- no failing write: the entry gets the resolved name, the WebSocket, the time and the kind of
-- authentication. Each connection that has then registered, this one among them, is sent once that
-- the node is online, and after that this one is sent its registration.
pub register_lem :
    (call : Call) (r : RegisterPayload) (w : World) (entry : ConnRegistryData)
    → w.registry.datastore.closed ≡ false
    → entry_of w.registry call.key ≡ some entry
    → ((s : Sent) (ws : ℕ) → call.broken s ws ≡ false)
    → let cr' =
        written w.registry call.key
          (registered (resolved call r) call.auth_type (some call.conn) call.now entry) in
      (sends : List (String × ℕ)) × Distinct sends
      × ((k : String)
          → lookup k sends ≡ (if call.key == k then some call.conn else writer_of w.registry k))
      × (handle_text_message call (some (register_message r)) w
          ≡ done (
            record {
              registry = cr';
              sent =
                  w.sent
                  ++ copies (goes_online call.key) sends
                  ++ (call.conn, acknowledged call.key (resolved call r)) ∷ [];
            },
            none,
          ))
unfolding handle_text_message handle_payload resolve_payload handle_register handle_echo
    handle_attributes handle_rename handle_sdp_offer handle_ice_offer and_then register check
    write_json
register_lem call r w entry is_open stored works =
    let new = registered (resolved call r) call.auth_type (some call.conn) call.now entry in
    let cr' = written w.registry call.key new in
    let (sends, distinct, each, ran) =
      send_broadcast_msg_lem call (goes_online call.key) works (record w { registry = cr' })
        is_open in
    (
      sends,
      distinct,
      λ k.
          each k
          ∙ ap writer (get-written w.registry call.key k new)
          ∙ elim (Bool-cases (call.key == k)) [ inl e ↦ rw e refl | inr e ↦ rw e refl ],
      rw
          (
            update-stored w.registry call.key
                (register_op (resolved call r) call.auth_type (some call.conn) call.now) tt is_open
                stored refl,
            ran,
            works,
          )
          refl,
    )

abbrev pub echo_message : EchoPayload → MessagePayload
echo_message echo = record no_message { echo = some echo }

-- A text message with just a ping, on an open registry that holds the connection: if the write does
-- not fail, the time of the heartbeat is stored in the entry, and one answer is written to the
-- connection, with the ping's correlation id, timestamp and sequence number.
pub ping_lem :
    (call : Call) (echo : EchoPayload) (w : World) (entry : ConnRegistryData)
    → echo.direction ≡ c2s
    → w.registry.datastore.closed ≡ false
    → entry_of w.registry call.key ≡ some entry
    → call.broken w.sent call.conn ≡ false
    → handle_text_message call (some (echo_message echo)) w
      ≡ done (
        record {
          registry = written w.registry call.key (record entry { last_heartbeat = some call.now });
          sent = w.sent ++ (call.conn, pong call echo) ∷ [];
        },
        none,
      )
unfolding handle_text_message handle_payload resolve_payload handle_register handle_echo
    handle_attributes handle_rename handle_sdp_offer handle_ice_offer and_then update_heartbeat
    check write_json is_ping
ping_lem call echo w entry direction is_open stored works =
    rw
      (
        direction,
        update-stored w.registry call.key (heartbeat_op call.now) tt is_open stored refl,
        works,
      )
      refl

abbrev pub username_of : Option User → String
username_of none = ""
username_of (some user) = user.username

-- The first of three names that is not empty, and otherwise the last.
abbrev pub first_filled : String → String → String → String
first_filled a b c = if a == "" then (if b == "" then c else b) else a

default_name-filled : (n : ℕ) → (get_default_user_name n == "") ≡ false
unfolding get_default_user_name
default_name-filled n = elim (Bool-cases (get_default_user_name n == "")) [
  | inr e ↦ e
  | inl e ↦ absurd (cons≢nil (append-eq-nil_iff.0 ((eq_iff (get_default_user_name n) "").0 e)).0)
]

-- A node name that is not empty stays. For an empty one, the resolved name is the name of the user
-- that is logged in, and the default name if there is none or the user's name is empty; the resolved
-- name is never empty.
pub resolve_name_lem :
    (call : Call) (node_name : String)
    → ((resolve_name call node_name == "") ≡ false)
      × (resolve_name call node_name
          ≡ first_filled node_name
              (username_of call.logged_in_as)
              (get_default_user_name call.num_id))
unfolding resolve_name get_default_user_name
resolve_name_lem call node_name = elim (Bool-cases (node_name == "")) [
  | inr e ↦ (rw (e, e) e, rw (e, e) refl)
  | inl e ↦ elim (Option-cases call.logged_in_as) [
    | inl h ↦ (rw (e, h, e) (default_name-filled call.num_id), rw (e, h, e) refl)
    | inr (user, h) ↦ elim (Bool-cases (user.username == "")) [
      | inl u ↦ (rw (e, h, u) (default_name-filled call.num_id), rw (e, h, u) refl)
      | inr u ↦ (rw (e, h, u) u, rw (e, h, u) refl)
    ]
  ]
]

default_name-injective : (n m : ℕ) → get_default_user_name n ≡ get_default_user_name m → n ≡ m
unfolding get_default_user_name
default_name-injective n m e =
    decimal_04-injective n m (append_cancel_left "user" (decimal_04 n) (decimal_04 m) e)

-- Two connections that register without a name and without a login, and so with their default
-- names, have the same name only if they have the same number.
pub default_names_distinct :
    (c d : Call)
    → c.logged_in_as ≡ none
    → d.logged_in_as ≡ none
    → resolve_name c "" ≡ resolve_name d ""
    → c.num_id ≡ d.num_id
unfolding resolve_name get_default_user_name
default_names_distinct c d h k e = default_name-injective c.num_id d.num_id (rw (h, k) at e)
