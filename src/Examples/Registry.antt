-- ===== src/Examples/Registry.antt =====
-- webrtc-server/pkg/connreg, run on a registry with two connections: `k1`, which has opened, and
-- `k2`, which has registered too.
use webrtc_chat.Prelude.{String, ◌≡◌, refl, true, false, none, some, [], ◌∷◌}
use webrtc_chat.Map
use webrtc_chat.Map.{Map, Range, entries_range}
use webrtc_chat.Decimal.{pos}
use webrtc_chat.Payloads.{
  RegisterPayload, RenamePayload, AttributesAnnouncementPayload, AuthenticationType,
}
use webrtc_chat.ConnReg.{ConnRegistry, ConnRegistryData, open_connection, test_against_attributes}
use webrtc_chat.ConnReg.Lifecycle.{entry_of, fresh_entry, registered}

abbrev pub opened : ConnRegistryData
opened = fresh_entry none 100

abbrev pub alice : RegisterPayload
alice = record { node_name = "alice"; token = none }

abbrev pub online : ConnRegistryData
online = record (registered alice AuthenticationType.none (some 7) 101 opened) {
  attributes = Map.put Map.empty "room" "lobby";
}

abbrev pub registry : ConnRegistry
registry = record {
  datastore = record {
    store = Map.put (Map.put Map.empty "k1" opened) "k2" online;
    closed = false;
  };
  counter = 2;
}

abbrev pub range : Range ConnRegistryData
range = entries_range ConnRegistryData

abbrev pub texts : Range String
texts = entries_range String

pub k1_stored : entry_of registry "k1" ≡ some opened
unfolding Map.get Map.put Map.empty
k1_stored = refl

pub k2_stored : entry_of registry "k2" ≡ some online
unfolding Map.get Map.put Map.empty
k2_stored = refl

open_connection-run : (open_connection registry "k3" none 105).1 ≡ 2
unfolding open_connection
open_connection-run = refl

abbrev pub preference : RenamePayload
preference = record {
  new_preference = record { name = "bob"; idx_of_prefer_color = some (pos 3) };
  origin_node_name = "";
}

abbrev announcement : AttributesAnnouncementPayload
announcement = record {
  attributes = Map.put Map.empty "mood" "busy";
  withdrawals = "room" ∷ "topic" ∷ [];
}

abbrev lobby : Map String
lobby = Map.put Map.empty "room" "lobby"

test_against_attributes-run :
    (test_against_attributes texts online lobby ≡ true)
    × (test_against_attributes texts opened lobby ≡ false)
unfolding test_against_attributes Map.entries Map.get Map.put Map.empty
test_against_attributes-run = (refl, refl)
