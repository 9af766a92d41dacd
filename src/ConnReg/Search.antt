-- ===== src/ConnReg/Search.antt =====
-- webrtc-server/pkg/connreg: the lookups that walk the registry, against the stored map. The
-- results do not depend on the order of the walk, but for which of several matches is found.
use webrtc_chat.Prelude.{
  String, ◌≡◌, refl, sym, ◌∙◌, ◌⊎◌, true, false, Option, none, some, List, [], ◌∷◌, arith, Outcome,
  done, eq_iff, eq_refl, Bool-cases, inl, inr,
}
use mathlib.Core.Option
use webrtc_chat.Map
use webrtc_chat.Map.{Map, Range, get-empty}
use webrtc_chat.Map.Assoc.{lookup, Distinct}
use webrtc_chat.Errors.{Error}
use webrtc_chat.SafeMap
use webrtc_chat.SafeMap.{walk_entries}
use webrtc_chat.SafeMap.Laws.{get-copy_entries, walk_entries-stop}
use webrtc_chat.ConnReg.{
  ConnRegistry, ConnRegistryData, clone_conn_registry_data, dump, stop_at, get_by_node_id,
  stop_at_match, search_by_attributes, test_against_attributes,
}

-- What the clone of an optional entry is.
abbrev pub cloned : Option ConnRegistryData → Option ConnRegistryData
cloned = Option.map clone_conn_registry_data

-- On an open registry GetByNodeId returns the clone of the entry with that key, or nil if there is
-- none, and no error, whatever the order of the walk.
pub get_by_node_id-eq-get :
    (range : Range ConnRegistryData) (cr : ConnRegistry) (node_id : String)
    → cr.datastore.closed ≡ false
    → get_by_node_id range cr node_id ≡ done (cloned (Map.get cr.datastore.store node_id), none)
unfolding get_by_node_id stop_at
get_by_node_id-eq-get range cr node_id is_open = rw is_open (
    rw
      (walk_entries-stop (stop_at node_id) node_id none (λ e. some (clone_conn_registry_data e))
        (range.order cr.datastore.store) (λ k w e. rw e) (λ k w e. rw e))
      (ground (arith, range.visits cr.datastore.store node_id)))

-- Dump of an open registry holds at each key the clone of the entry there, and no other keys.
pub get-dump_conn :
    (range : Range ConnRegistryData) (cr : ConnRegistry) (key : String)
    → cr.datastore.closed ≡ false
    → Map.get (dump range cr) key ≡ cloned (Map.get cr.datastore.store key)
unfolding dump
get-dump_conn range cr key is_open = ground (
  arith,
  get-copy_entries range none
      (SafeMap.copy_entries (some clone_conn_registry_data) Map.empty
        (range.order cr.datastore.store))
      key,
  get-copy_entries range (some clone_conn_registry_data) cr.datastore.store key,
)

module _ (attribute_range : Range String) (expected : Map String) where
  abbrev Missed : List (String × ConnRegistryData) → Type 0
  Missed l =
      (k : String) (e : ConnRegistryData)
      → lookup k l ≡ some e
      → test_against_attributes attribute_range e expected ≡ false

  abbrev Matched : List (String × ConnRegistryData) → ConnRegistryData → Type 0
  Matched l e =
      (k : String) × (lookup k l ≡ some e)
      × (test_against_attributes attribute_range e expected ≡ true)

  abbrev searched :
      List (String × ConnRegistryData) → Outcome (Option ConnRegistryData × Option Error)
  searched l = walk_entries (stop_at_match attribute_range expected) l none

  Missed-cons :
      (j : String) (w : ConnRegistryData) (l : List (String × ConnRegistryData))
      → test_against_attributes attribute_range w expected ≡ false
      → Missed l
      → Missed ((j, w) ∷ l)
  unfolding lookup
  Missed-cons j w l fails misses k e h = ground (arith, misses k e, eq_iff j k)

  Matched-cons :
      (j : String) (w : ConnRegistryData) (l : List (String × ConnRegistryData))
      {e : ConnRegistryData}
      → lookup j l ≡ none
      → Matched l e
      → Matched ((j, w) ∷ l) e
  unfolding lookup
  Matched-cons j w l fresh (k, found, fits) = (k, ground (arith, eq_iff j k), fits)

  walk_match :
      (l : List (String × ConnRegistryData))
      → Distinct l
      → ((searched l ≡ done (none, none)) × Missed l)
        ⊎ ((e : ConnRegistryData) × (searched l ≡ done (some (clone_conn_registry_data e), none))
            × Matched l e)
  unfolding walk_entries stop_at_match
  walk_match [] d = inl (refl, λ k e h. unfold lookup in cc)
  walk_match ((j, w) ∷ l) d =
      elim (Bool-cases (test_against_attributes attribute_range w expected)) [
        | inl fits ↦ inr (w, rw fits, (j, unfold lookup in simp eq_refl, fits))
        | inr fails ↦ elim (walk_match l d.1) [
          | inl (ran, misses) ↦ inl (rw fails ran, Missed-cons j w l fails misses)
          | inr (e, ran, m) ↦ inr (e, rw fails ran, Matched-cons j w l d.0 m)
        ]
      ]

-- SearchByAttributes on an open registry returns no error, and either nil, and then no stored entry
-- passes the test, or the clone of an entry that is stored and passes it.
pub search_by_attributes_lem :
    (range : Range ConnRegistryData) (attribute_range : Range String) (cr : ConnRegistry)
    (expected : Map String)
    → cr.datastore.closed ≡ false
    → ((search_by_attributes range attribute_range cr expected ≡ done (none, none))
        × ((k : String) (e : ConnRegistryData)
            → Map.get cr.datastore.store k ≡ some e
            → test_against_attributes attribute_range e expected ≡ false))
      ⊎ ((k : String) × (e : ConnRegistryData) × (search_by_attributes range attribute_range cr
              expected
            ≡ done (some (clone_conn_registry_data e), none))
          × (Map.get cr.datastore.store k ≡ some e)
          × (test_against_attributes attribute_range e expected ≡ true))
unfolding search_by_attributes
search_by_attributes_lem range attribute_range cr expected is_open =
    elim (walk_match attribute_range expected (range.order store) (range.distinct store)) [
      | inl (ran, misses) ↦ inl (rw is_open ran, λ k e h. misses k e (range.visits store k ∙ h))
      | inr (e, ran, (k, found, fits)) ↦
          inr (k, e, rw is_open ran, sym (range.visits store k) ∙ found, fits)
    ]
  where
    open cr.datastore use {store}
