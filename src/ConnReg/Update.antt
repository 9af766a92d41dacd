-- ===== src/ConnReg/Update.antt =====
-- webrtc-server/pkg/connreg: what the methods that write through Get have in common.
use webrtc_chat.Prelude.{
  ℕ, String, ◌≡◌, refl, ◌∙◌, false, Option, none, some, arith, Outcome, done, panic, Fault, ◌==◌,
  inl, inr, Bool-cases, Option-cases, if◌then◌else◌,
}
use webrtc_chat.Map
use webrtc_chat.Map.{Map, get-put}
use webrtc_chat.Errors.{Error, connection_not_found}
use webrtc_chat.Payloads.{
  RegisterPayload, RenamePayload, AttributesAnnouncementPayload, AuthenticationType,
}
use webrtc_chat.ConnReg.{
  ConnRegistry, ConnRegistryData, update, register, register_op, update_heartbeat, heartbeat_op,
  update_preference, preference_op, set_attributes, attributes_op,
}

-- The registry with one entry written.
abbrev pub written : ConnRegistry → String → ConnRegistryData → ConnRegistry
written cr key entry = record cr {
  datastore = record cr.datastore { store = Map.put cr.datastore.store key entry };
}

pub get-written :
    (cr : ConnRegistry) (key j : String) (entry : ConnRegistryData)
    → Map.get (written cr key entry).datastore.store j
      ≡ (if key == j then some entry else Map.get cr.datastore.store j)
get-written cr key j entry = get-put cr.datastore.store key j entry

module _ {S : Type 0} (cr : ConnRegistry) (key : String)
    (op : ConnRegistryData → S → Outcome (ConnRegistryData × S × Option Error)) (s : S)
    (is_open : cr.datastore.closed ≡ false) where
  pub update-stored :
      {entry entry' : ConnRegistryData} {s' : S} {e : Option Error}
      → Map.get cr.datastore.store key ≡ some entry
      → op entry s ≡ done (entry', s', e)
      → update cr key op s ≡ done (written cr key entry', s', none)
  unfolding update
  update-stored stored ran = rw (is_open, stored, ran)

  pub update-missing :
      Map.get cr.datastore.store key ≡ none
      → update cr key op s ≡ done (cr, s, some (connection_not_found key))
  unfolding update
  update-missing missing = ground arith

  pub update-panic :
      {entry : ConnRegistryData} {f : Fault}
      → Map.get cr.datastore.store key ≡ some entry
      → op entry s ≡ panic f
      → update cr key op s ≡ panic f
  unfolding update
  update-panic stored ran = ground arith

-- Whatever the callback does, the registry afterwards is the old one, or has one entry written.
pub data Written (cr : ConnRegistry) (key : String) (cr' : ConnRegistry) : Type 0 where
  same : cr' ≡ cr → Written cr key cr'
  wrote : (entry : ConnRegistryData) → cr' ≡ written cr key entry → Written cr key cr'

module _ {S : Type 0} (cr cr' : ConnRegistry) (key : String)
    (op : ConnRegistryData → S → Outcome (ConnRegistryData × S × Option Error)) (s s' : S)
    (e : Option Error) (ran : update cr key op s ≡ done (cr', s', e)) where
  update-Written_at :
      (entry : ConnRegistryData) (o : Outcome (ConnRegistryData × S × Option Error))
      → cr.datastore.closed ≡ false
      → Map.get cr.datastore.store key ≡ some entry
      → op entry s ≡ o
      → Written cr key cr'
  update-Written_at entry (panic f) is_open stored h =
      absurd (cc (update-panic cr key op s is_open stored h))
  update-Written_at entry (done (v, t, x)) is_open stored h =
      wrote v (cc (update-stored cr key op s is_open stored h))

  pub update-Written : Written cr key cr'
  unfolding update
  update-Written = elim (Bool-cases cr.datastore.closed) [
    | inl closed ↦ same (ground arith)
    | inr is_open ↦ elim (Option-cases (Map.get cr.datastore.store key)) [
      | inl missing ↦ same (ground arith)
      | inr (entry, stored) ↦ update-Written_at entry (op entry s) is_open stored refl
    ]
  ]

-- Each method that writes through Get does so.
pub register-Written :
    (cr cr' : ConnRegistry) (key : String) (p : RegisterPayload) (auth : AuthenticationType)
    (ws : Option ℕ) (now : ℕ) (s : Unit {0}) (e : Option Error)
    → register cr key p auth ws now ≡ done (cr', s, e)
    → Written cr key cr'
unfolding register
register-Written cr cr' key p auth ws now s e ran =
    update-Written cr cr' key (register_op p auth ws now) tt s e ran

pub update_heartbeat-Written :
    (cr cr' : ConnRegistry) (key : String) (now : ℕ) (s : Unit {0}) (e : Option Error)
    → update_heartbeat cr key now ≡ done (cr', s, e)
    → Written cr key cr'
unfolding update_heartbeat
update_heartbeat-Written cr cr' key now s e ran =
    update-Written cr cr' key (heartbeat_op now) tt s e ran

pub update_preference-Written :
    (cr cr' : ConnRegistry) (key : String) (r : RenamePayload) (s : String) (e : Option Error)
    → update_preference cr key r ≡ done (cr', s, e)
    → Written cr key cr'
unfolding update_preference
update_preference-Written cr cr' key r s e ran =
    update-Written cr cr' key (preference_op r) "" s e ran

pub set_attributes-Written :
    (range : Map.Range String) (cr cr' : ConnRegistry) (key : String)
    (a : AttributesAnnouncementPayload) (s : Unit {0}) (e : Option Error)
    → set_attributes range cr key a ≡ done (cr', s, e)
    → Written cr key cr'
unfolding set_attributes
set_attributes-Written range cr cr' key a s e ran =
    update-Written cr cr' key (attributes_op range a) tt s e ran

pub Written-frame :
    (cr : ConnRegistry) (key : String) (cr' : ConnRegistry)
    → Written cr key cr'
    → (cr'.datastore.closed ≡ cr.datastore.closed)
      × (cr'.counter ≡ cr.counter)
      × ((j : String)
          → (key == j) ≡ false
          → Map.get cr'.datastore.store j ≡ Map.get cr.datastore.store j)
Written-frame cr key cr' (same e) = rw e (refl, refl, λ j h. refl)
Written-frame cr key cr' (wrote entry e) =
    rw e (refl, refl, λ j h. get-written cr key j entry ∙ rw h)
