-- ===== src/ConnReg.antt =====
-- webrtc-server/pkg/connreg: the registry of signalling connections over a SafeMap. An entry of the
-- map is a pointer to ConnRegistryData in the source, which the callbacks of Get write through.
-- `now` is the clock's reading in a call. WebSocket writers and QUIC connections are references.
pub mod Update
pub mod Attributes
pub mod Lifecycle
pub mod Search
use webrtc_chat.Prelude.{
  ℕ, zero, ◌+◌, String, Bool, true, false, not, Option, none, some, List, [], ◌∷◌, Outcome, done,
  panic, nil_dereference, ◌>>=◌, ◌==◌, if◌then◌else◌,
}
use webrtc_chat.Map
use webrtc_chat.Map.{Map, Range}
use webrtc_chat.Errors.{Error, connection_not_found}
use webrtc_chat.Decimal.{itoa}
use webrtc_chat.Payloads.{
  RegisterPayload, RenamePayload, UserPreference, AttributesAnnouncementPayload, AuthenticationType,
}
use webrtc_chat.SafeMap
use webrtc_chat.SafeMap.{SafeMap}

pub record ConnRegistryData : Type 0 where
  pub node_name : Option String
  pub connected_at : ℕ
  pub registered_at : Option ℕ
  pub last_heartbeat : Option ℕ
  pub attributes : Map String
  pub quic_conn : Option ℕ
  pub ws_conn : Option ℕ
  pub claims : Option (Map String)
  pub authentication : AuthenticationType

-- cloneConnRegistryData: the JSON round trip keeps the exported fields and drops the three that
-- are tagged "-", of which the two connections are copied afterwards.
unfoldable pub clone_conn_registry_data : ConnRegistryData → ConnRegistryData
clone_conn_registry_data reg_data = record reg_data { claims = none }

pub record ConnRegistry : Type 0 where
  pub datastore : SafeMap ConnRegistryData
  pub counter : ℕ

unfoldable pub new_conn_registry : SafeMap ConnRegistryData → ConnRegistry
new_conn_registry datastore = record { datastore = datastore; counter = 0 }

-- IncrementCounter: the value before, as the lock makes the two steps one.
unfoldable pub increment_counter : ConnRegistry → ConnRegistry × ℕ
increment_counter cr = (record cr { counter = cr.counter + 1 }, cr.counter)

unfoldable pub open_connection : ConnRegistry → String → Option ℕ → ℕ → ConnRegistry × ℕ
unfolding increment_counter SafeMap.set
open_connection cr key quic_conn now =
    let (cr', num_id) = increment_counter cr in
    (
      record cr' {
        datastore = SafeMap.set cr'.datastore key (record {
          node_name = none;
          connected_at = now;
          registered_at = none;
          last_heartbeat = none;
          attributes = Map.empty;
          quic_conn = quic_conn;
          ws_conn = none;
          claims = none;
          authentication = AuthenticationType.unset;
        });
      },
      num_id,
    )

unfoldable pub close_connection : ConnRegistry → String → ConnRegistry
unfolding SafeMap.delete
close_connection cr key = record cr { datastore = SafeMap.delete cr.datastore key }

-- `_, found := cr.datastore.Get(key, op)`, then an error if nothing was found.
unfoldable pub update :
    {S : Type 0}
    → ConnRegistry
    → String
    → (ConnRegistryData → S → Outcome (ConnRegistryData × S × Option Error))
    → S
    → Outcome (ConnRegistry × S × Option Error)
unfolding SafeMap.get
update cr key op s = SafeMap.get cr.datastore key op s >>= λ r.
    done
      (record cr { datastore = r.0 }, r.1, (if r.3 then none else some (connection_not_found key)))

-- The callback of Register. A stored pointer is never nil, so its nil test does not fire.
unfoldable pub register_op :
    RegisterPayload
    → AuthenticationType
    → Option ℕ
    → ℕ
    → ConnRegistryData
    → Unit {0}
    → Outcome (ConnRegistryData × Unit {0} × Option Error)
register_op payload auth_type ws_conn now entry _ = done (
  record entry {
    node_name = some payload.node_name;
    registered_at = some now;
    ws_conn = ws_conn;
    authentication = auth_type;
  },
  tt,
  none,
)

unfoldable pub register :
    ConnRegistry
    → String
    → RegisterPayload
    → AuthenticationType
    → Option ℕ
    → ℕ
    → Outcome (ConnRegistry × Unit {0} × Option Error)
unfolding update register_op
register cr key payload auth_type ws_conn now =
    update cr key (register_op payload auth_type ws_conn now) tt

unfoldable pub heartbeat_op :
    ℕ → ConnRegistryData → Unit {0} → Outcome (ConnRegistryData × Unit {0} × Option Error)
heartbeat_op now entry _ = done (record entry { last_heartbeat = some now }, tt, none)

unfoldable pub update_heartbeat :
    ConnRegistry → String → ℕ → Outcome (ConnRegistry × Unit {0} × Option Error)
unfolding update heartbeat_op
update_heartbeat cr key now = update cr key (heartbeat_op now) tt

abbrev pub well_known_attribute_prefer_color_idx : String
well_known_attribute_prefer_color_idx = "preferred_color"

-- The attributes after a preference that may name a colour.
unfoldable pub with_color : UserPreference → Map String → Map String
unfolding itoa
with_color preference attributes = elim preference.idx_of_prefer_color [
  | none ↦ attributes
  | some idx ↦ Map.put attributes well_known_attribute_prefer_color_idx (itoa idx)
]

-- The callback of UpdatePreference, which reads `*entry.NodeName` first: that panics while the name
-- is nil. `origin_name` is the captured variable.
unfoldable pub preference_op :
    RenamePayload → ConnRegistryData → String → Outcome (ConnRegistryData × String × Option Error)
unfolding with_color
preference_op payload entry origin_name = elim entry.node_name [
  | none ↦ panic nil_dereference
  | some node_name ↦ done (
    record entry {
      node_name = some payload.new_preference.name;
      attributes = with_color payload.new_preference entry.attributes;
    },
    node_name,
    none,
  )
]

-- The old name, and the error; on an error the name is the empty text.
unfoldable pub update_preference :
    ConnRegistry → String → RenamePayload → Outcome (ConnRegistry × String × Option Error)
unfolding update preference_op
update_preference cr key payload = update cr key (preference_op payload) ""

-- delete(attrs, withdrawal) for each withdrawal
unfoldable pub withdraw : Map String → List String → Map String
withdraw attrs [] = attrs
withdraw attrs (w ∷ ws) = withdraw (Map.remove attrs w) ws

-- attrs[k] = v for each entry
unfoldable pub announce : Map String → List (String × String) → Map String
announce attrs [] = attrs
announce attrs ((k, v) ∷ l) = announce (Map.put attrs k v) l

-- The callback of SetAttributes: a copy of the old attributes, the withdrawals, the announced ones.
unfoldable pub attributes_op :
    Range String
    → AttributesAnnouncementPayload
    → ConnRegistryData
    → Unit {0}
    → Outcome (ConnRegistryData × Unit {0} × Option Error)
unfolding withdraw announce
attributes_op range announcement entry _ =
    let attrs = announce Map.empty (range.order entry.attributes) in
    let attrs = withdraw attrs announcement.withdrawals in
    let attrs = announce attrs (range.order announcement.attributes) in
    done (record entry { attributes = attrs }, tt, none)

unfoldable pub set_attributes :
    Range String
    → ConnRegistry
    → String
    → AttributesAnnouncementPayload
    → Outcome (ConnRegistry × Unit {0} × Option Error)
unfolding update attributes_op
set_attributes range cr key announcement = update cr key (attributes_op range announcement) tt

-- The dumped map is ranged over once more into a map of the entries' own type.
unfoldable pub dump : Range ConnRegistryData → ConnRegistry → Map ConnRegistryData
unfolding SafeMap.dump SafeMap.copy_entries clone_conn_registry_data
dump range cr = elim (SafeMap.dump range cr.datastore (some clone_conn_registry_data)) [
  | none ↦ Map.empty
  | some dumped ↦ SafeMap.copy_entries none Map.empty (range.order dumped)
]

unfoldable pub count : ConnRegistry → ℕ
unfolding SafeMap.len
count cr = SafeMap.len cr.datastore

unfoldable pub matches : Map String → List (String × String) → Bool
matches attributes [] = true
matches attributes ((k, v) ∷ l) = elim (Map.get attributes k) [
  | none ↦ false
  | some actual ↦ if actual == v then matches attributes l else false
]

-- The loop over the expected attributes, which ends at the first that is missing or differs.
unfoldable pub test_against_attributes : Range String → ConnRegistryData → Map String → Bool
unfolding matches
test_against_attributes range reg_data expected = matches reg_data.attributes (range.order expected)

-- The walk functions: `data` is the captured result.
unfoldable pub stop_at :
    String
    → String
    → ConnRegistryData
    → Option ConnRegistryData
    → Outcome (Option ConnRegistryData × Bool × Option Error)
unfolding clone_conn_registry_data
stop_at node_id key entry found =
    if key == node_id
    then done (some (clone_conn_registry_data entry), false, none)
    else done (found, true, none)

unfoldable pub get_by_node_id :
    Range ConnRegistryData
    → ConnRegistry
    → String
    → Outcome (Option ConnRegistryData × Option Error)
unfolding SafeMap.walk stop_at
get_by_node_id range cr node_id = SafeMap.walk range cr.datastore (stop_at node_id) none

unfoldable pub stop_at_match :
    Range String
    → Map String
    → String
    → ConnRegistryData
    → Option ConnRegistryData
    → Outcome (Option ConnRegistryData × Bool × Option Error)
unfolding clone_conn_registry_data test_against_attributes
stop_at_match range expected key entry found =
    if test_against_attributes range entry expected
    then done (some (clone_conn_registry_data entry), false, none)
    else done (found, true, none)

unfoldable pub search_by_attributes :
    Range ConnRegistryData
    → Range String
    → ConnRegistry
    → Map String
    → Outcome (Option ConnRegistryData × Option Error)
unfolding SafeMap.walk stop_at_match
search_by_attributes range attribute_range cr expected =
    SafeMap.walk range cr.datastore (stop_at_match attribute_range expected) none
