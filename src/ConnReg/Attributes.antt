-- ===== src/ConnReg/Attributes.antt =====
-- webrtc-server/pkg/connreg: SetAttributes and TestAgainstAttributes against what they mean for
-- each attribute, whatever the order in which Go ranges over its maps.
use webrtc_chat.Prelude.{
  String, ◌≡◌, refl, sym, ◌∙◌, ◌↔◌, Bool, true, false, ◌||◌, Option, none, some, List, [], ◌∷◌,
  arith, done, ◌==◌, eq_iff, eq_refl, Option-cases, inl, inr, if◌then◌else◌,
}
use webrtc_chat.Map
use webrtc_chat.Map.{Map, Range, get-put, get-remove, get-empty}
use webrtc_chat.Map.Assoc.{lookup, Distinct}
use webrtc_chat.Payloads.{AttributesAnnouncementPayload}
use webrtc_chat.ConnReg.{
  ConnRegistry, ConnRegistryData, withdraw, announce, attributes_op, set_attributes, matches,
  test_against_attributes,
}
use webrtc_chat.ConnReg.Update.{written, update-stored}

abbrev pub or_else : Option String → Option String → Option String
or_else (some v) o = some v
or_else none o = o

abbrev pub is_member : String → List String → Bool
is_member k [] = false
is_member k (w ∷ ws) = w == k || is_member k ws

get-announce :
    (attrs : Map String) (l : List (String × String)) (k : String)
    → Distinct l
    → Map.get (announce attrs l) k ≡ or_else (lookup k l) (Map.get attrs k)
unfolding announce lookup
get-announce attrs [] k h = refl
get-announce attrs ((j, v) ∷ l) k h =
    ground (arith, get-announce (Map.put attrs j v) l k, get-put attrs j k v, eq_iff j k)

get-withdraw :
    (attrs : Map String) (ws : List String) (k : String)
    → Map.get (withdraw attrs ws) k ≡ (if is_member k ws then none else Map.get attrs k)
unfolding withdraw
get-withdraw attrs [] k = refl
get-withdraw attrs (w ∷ ws) k =
    ground (arith, get-withdraw (Map.remove attrs w) ws k, get-remove attrs w k)

-- The value of one attribute after an announcement: the announced one, or else none if the
-- attribute is withdrawn, or else the old one.
abbrev pub announced : AttributesAnnouncementPayload → Map String → String → Option String
announced a old k =
    or_else (Map.get a.attributes k) (if is_member k a.withdrawals then none else Map.get old k)

-- What the callback stores.
attributes_op_lem :
    (range : Range String) (a : AttributesAnnouncementPayload) (entry : ConnRegistryData)
    → (m : Map String) × (attributes_op range a entry tt
        ≡ done (record entry { attributes = m }, tt, none))
      × ((k : String) → Map.get m k ≡ announced a entry.attributes k)
unfolding attributes_op
attributes_op_lem range a entry =
    let copied = announce Map.empty (range.order entry.attributes) in
    let left = withdraw copied a.withdrawals in
    (
      announce left (range.order a.attributes),
      refl,
      λ k. ground (
        arith,
        get-announce left (range.order a.attributes) k (range.distinct a.attributes),
        range.visits a.attributes k,
        get-withdraw copied a.withdrawals k,
        get-announce Map.empty (range.order entry.attributes) k (range.distinct entry.attributes),
        range.visits entry.attributes k,
        get-empty {V = String} k,
      ),
    )

-- SetAttributes on a registry that is open and holds the connection succeeds: the entry keeps all
-- fields but the attributes, each attribute has its announced value, or is gone if it was only
-- withdrawn, or is as before, and nothing else of the registry changes.
pub set_attributes_lem :
    (range : Range String) (cr : ConnRegistry) (key : String) (a : AttributesAnnouncementPayload)
    (entry : ConnRegistryData)
    → cr.datastore.closed ≡ false
    → Map.get cr.datastore.store key ≡ some entry
    → (m : Map String) × (set_attributes range cr key a
        ≡ done (written cr key (record entry { attributes = m }), tt, none))
      × ((k : String) → Map.get m k ≡ announced a entry.attributes k)
unfolding set_attributes
set_attributes_lem range cr key a entry is_open stored =
    let (m, ran, holds) = attributes_op_lem range a entry in
    (m, update-stored cr key (attributes_op range a) tt is_open stored ran, holds)

matches-cons :
    (attributes : Map String) (j w : String) (l : List (String × String))
    → matches attributes ((j, w) ∷ l) ≡ true
    → (Map.get attributes j ≡ some w) × (matches attributes l ≡ true)
unfolding matches
matches-cons attributes j w l h = elim (Option-cases (Map.get attributes j)) [
  | inl e ↦ ground arith
  | inr (x, e) ↦ ground (arith, eq_iff x w)
]

matches_sound :
    (attributes : Map String) (l : List (String × String)) (k v : String)
    → matches attributes l ≡ true
    → lookup k l ≡ some v
    → Map.get attributes k ≡ some v
unfolding lookup
matches_sound attributes [] k v h e = cc
matches_sound attributes ((j, w) ∷ l) k v h e =
    ground (arith, matches-cons attributes j w l h, matches_sound attributes l k v, eq_iff j k)

later :
    (attributes : Map String) (j w : String) (l : List (String × String))
    → Distinct ((j, w) ∷ l)
    → ((k v : String) → lookup k ((j, w) ∷ l) ≡ some v → Map.get attributes k ≡ some v)
    → (k v : String) → lookup k l ≡ some v
    → Map.get attributes k ≡ some v
unfolding lookup
later attributes j w l d h k v e = ground (arith, h k v, eq_iff j k, d.0)

matches_complete :
    (attributes : Map String) (l : List (String × String))
    → Distinct l
    → ((k v : String) → lookup k l ≡ some v → Map.get attributes k ≡ some v)
    → matches attributes l ≡ true
unfolding matches lookup
matches_complete attributes [] d h = refl
matches_complete attributes ((j, w) ∷ l) d h = ground (
  arith,
  eq_refl j,
  eq_refl w,
  h j w,
  matches_complete attributes l d.1 (later attributes j w l d h),
)

-- TestAgainstAttributes holds exactly when every expected attribute is present with its value.
pub test_against_attributes_iff :
    (range : Range String) (entry : ConnRegistryData) (expected : Map String)
    → (test_against_attributes range entry expected ≡ true)
      ↔ ((k v : String) → Map.get expected k ≡ some v → Map.get entry.attributes k ≡ some v)
unfolding test_against_attributes
test_against_attributes_iff range entry expected = (
  λ h k v e.
      matches_sound entry.attributes (range.order expected) k v h (range.visits expected k ∙ e),
  λ h.
      matches_complete entry.attributes (range.order expected) (range.distinct expected)
        (λ k v e. h k v (sym (range.visits expected k) ∙ e)),
)
