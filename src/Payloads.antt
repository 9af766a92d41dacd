-- ===== src/Payloads.antt =====
-- webrtc-server/pkg/connreg (the payload types) and webrtc-server/pkg/framing: the messages of the
-- signalling protocol. A pointer field that may be nil is an Option; a map that may be nil is a
-- Map, since reading and ranging do not tell a nil map from an empty one; a string type with
-- named values has a constructor for each and one for every other text.
use webrtc_chat.Prelude.{ℕ, String, Option, List}
use webrtc_chat.Map.{Map}
use webrtc_chat.Decimal.{ℤ}

pub record RegisterPayload : Type 0 where
  pub node_name : String
  pub token : Option String

-- EchoDirectionC2S is "ping", EchoDirectionS2C is "pong".
pub data EchoDirection : Type 0 where
  c2s s2c : EchoDirection
  other : String → EchoDirection

pub record NodeGoesOnline : Type 0 where
  pub node_id : String

pub data OfferType : Type 0 where
  offer answer : OfferType
  other : String → OfferType

pub record SdpOfferPayload : Type 0 where
  pub offer_type : OfferType
  pub offer_json : String
  pub from_node_id : String
  pub to_node_id : String

pub record IceOfferPayload : Type 0 where
  pub offer_json : String
  pub from_node_id : String
  pub to_node_id : String

pub record UserPreference : Type 0 where
  pub name : String
  pub idx_of_prefer_color : Option ℤ

pub record RenamePayload : Type 0 where
  pub new_preference : UserPreference
  pub origin_node_name : String

pub record EchoPayload : Type 0 where
  pub direction : EchoDirection
  pub correlation_id : String
  pub server_timestamp : ℕ
  pub timestamp : ℕ
  pub seq_id : ℕ

pub record AttributesAnnouncementPayload : Type 0 where
  pub attributes : Map String
  pub withdrawals : List String

pub record MessagePayload : Type 0 where
  pub node_id : String
  pub register : Option RegisterPayload
  pub echo : Option EchoPayload
  pub rename : Option RenamePayload
  pub online : Option NodeGoesOnline
  pub sdp_offer : Option SdpOfferPayload
  pub ice_offer : Option IceOfferPayload
  pub attributes_announcement : Option AttributesAnnouncementPayload

-- AuthenticationType; `unset` is the empty text of an entry that has not registered.
pub data AuthenticationType : Type 0 where
  none jwt session unset : AuthenticationType
