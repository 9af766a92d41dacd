-- ===== src/ConnReg/Lifecycle.antt =====
-- webrtc-server/pkg/connreg: a connection from OpenConnection to CloseConnection.
use webrtc_chat.Prelude.{
  ℕ, ◌+◌, String, ◌≡◌, refl, ◌∙◌, false, Option, none, some, arith, done, panic, nil_dereference,
  ◌==◌, eq_refl, if◌then◌else◌,
}
use webrtc_chat.Map
use webrtc_chat.Map.{Map, get-put, get-remove}
use webrtc_chat.Errors.{connection_not_found}
use webrtc_chat.Payloads.{
  RegisterPayload, RenamePayload, AttributesAnnouncementPayload, AuthenticationType,
}
use webrtc_chat.ConnReg.{
  ConnRegistry, ConnRegistryData, open_connection, close_connection, register, register_op,
  update_heartbeat, heartbeat_op, update_preference, preference_op, set_attributes, attributes_op,
  with_color, update,
}
use webrtc_chat.ConnReg.Update.{written, get-written, update-stored, update-missing}

abbrev pub entry_of : ConnRegistry → String → Option ConnRegistryData
entry_of cr key = Map.get cr.datastore.store key

abbrev pub fresh_entry : Option ℕ → ℕ → ConnRegistryData
fresh_entry quic now = record {
  node_name = none;
  connected_at = now;
  registered_at = none;
  last_heartbeat = none;
  attributes = Map.empty;
  quic_conn = quic;
  ws_conn = none;
  claims = none;
  authentication = AuthenticationType.unset;
}

-- OpenConnection on an open registry stores an entry without a name or a writer under the key,
-- leaves the other entries, and hands out the counter's value, which it increments.
pub open_connection_lem :
    (cr : ConnRegistry) (key : String) (quic : Option ℕ) (now : ℕ)
    → cr.datastore.closed ≡ false
    → (open_connection cr key quic now
        ≡ (record (written cr key (fresh_entry quic now)) { counter = cr.counter + 1 }, cr.counter))
      × ((j : String)
          → entry_of (open_connection cr key quic now).0 j
            ≡ (if key == j then some (fresh_entry quic now) else entry_of cr j))
unfolding open_connection
open_connection_lem cr key quic now is_open =
    (rw is_open, λ j. rw is_open (get-put cr.datastore.store key j (fresh_entry quic now)))

-- Rename before Register: UpdatePreference panics for every entry that has no name yet.
pub update_preference-unregistered :
    (cr : ConnRegistry) (key : String) (payload : RenamePayload) (entry : ConnRegistryData)
    → cr.datastore.closed ≡ false
    → entry_of cr key ≡ some entry
    → entry.node_name ≡ none
    → update_preference cr key payload ≡ panic nil_dereference
unfolding update_preference preference_op update
update_preference-unregistered cr key payload entry is_open stored unnamed = ground arith

abbrev pub registered :
    RegisterPayload → AuthenticationType → Option ℕ → ℕ → ConnRegistryData → ConnRegistryData
registered p auth ws now entry = record entry {
  node_name = some p.node_name;
  registered_at = some now;
  ws_conn = ws;
  authentication = auth;
}

abbrev pub renamed : RenamePayload → ConnRegistryData → ConnRegistryData
renamed r entry = record entry {
  node_name = some r.new_preference.name;
  attributes = with_color r.new_preference entry.attributes;
}

-- Register and then Rename: both succeed, the rename returns the registered name, and the entry
-- then has the new name with the rest as Register left it, up to the colour attribute.
pub register_then_rename :
    (cr : ConnRegistry) (key : String) (p : RegisterPayload) (auth : AuthenticationType)
    (ws : Option ℕ) (now : ℕ) (r : RenamePayload) (entry : ConnRegistryData)
    → cr.datastore.closed ≡ false
    → entry_of cr key ≡ some entry
    → (cr₁ cr₂ : ConnRegistry) × (register cr key p auth ws now ≡ done (cr₁, tt, none))
      × (update_preference cr₁ key r ≡ done (cr₂, p.node_name, none))
      × (entry_of cr₂ key ≡ some (renamed r (registered p auth ws now entry)))
unfolding register update_preference preference_op
register_then_rename cr key p auth ws now r entry is_open stored =
    let cr₁ = written cr key (registered p auth ws now entry) in
    (
      cr₁,
      written cr₁ key (renamed r (registered p auth ws now entry)),
      update-stored cr key (register_op p auth ws now) tt is_open stored refl,
      update-stored cr₁ key (preference_op r) "" is_open {entry = registered p auth ws now entry}
          (simp (get-written, eq_refl)) refl,
      simp (get-written, eq_refl),
    )

pub gone :
    (cr : ConnRegistry) (key : String)
    → cr.datastore.closed ≡ false
    → let cr' = close_connection cr key in
      (cr'.datastore.closed ≡ false)
      × ((j : String) → entry_of cr' j ≡ (if key == j then none else entry_of cr j))
unfolding close_connection
gone cr key is_open = (ground arith, λ j. rw is_open (get-remove cr.datastore.store key j))

-- After CloseConnection no method finds the connection: each returns the error and the registry as
-- it was, and the entry is gone while the others stay.
pub closed_connection_missing :
    (cr : ConnRegistry) (key : String)
    → cr.datastore.closed ≡ false
    → let cr' = close_connection cr key in
      ((j : String) → entry_of cr' j ≡ (if key == j then none else entry_of cr j))
      × ((p : RegisterPayload) (auth : AuthenticationType) (ws : Option ℕ) (now : ℕ)
          → register cr' key p auth ws now ≡ done (cr', tt, some (connection_not_found key)))
      × ((now : ℕ) → update_heartbeat cr' key now ≡ done (cr', tt, some (connection_not_found key)))
      × ((r : RenamePayload)
          → update_preference cr' key r ≡ done (cr', "", some (connection_not_found key)))
      × ((range : Map.Range String) (a : AttributesAnnouncementPayload)
          → set_attributes range cr' key a ≡ done (cr', tt, some (connection_not_found key)))
unfolding register update_heartbeat update_preference set_attributes
closed_connection_missing cr key is_open =
    let cr' = close_connection cr key in
    let (still, others) = gone cr key is_open in
    let missing : entry_of cr' key ≡ none = others key ∙ simp eq_refl in
    (
      others,
      λ p auth ws now. update-missing cr' key (register_op p auth ws now) tt still missing,
      λ now. update-missing cr' key (heartbeat_op now) tt still missing,
      λ r. update-missing cr' key (preference_op r) "" still missing,
      λ range a. update-missing cr' key (attributes_op range a) tt still missing,
    )
