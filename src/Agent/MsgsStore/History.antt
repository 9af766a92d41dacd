-- ===== src/Agent/MsgsStore/History.antt =====
-- webrtc-agents/pkg/handlers/chatbot_dc_handler.go: the collection of the chat bot, its messages by
-- session. The order in which DeepClone ranges over the sessions is a parameter.
use webrtc_chat.Prelude.{
  ℕ, zero, suc, String, ◌≡◌, refl, ◌∙◌, ap, Option, none, some, List, [], ◌∷◌, ◌++◌, arith, inl,
  inr, ◌==◌, if◌then◌else◌, Bool-cases, eq_iff,
}
use mathlib.Core.Option
use webrtc_chat.Map
use webrtc_chat.Map.{Map, Range, get-put}
use webrtc_chat.SafeMap
use webrtc_chat.SafeMap.Laws.{clone_with, get-copy_entries}
use webrtc_chat.Agent.MsgsStore.{
  MsgsCollection, MsgsStore, Memory, allocate, updated_from, append_msg,
}
use webrtc_chat.Agent.MsgsStore.Linear.{IsAllocated, appended, others_only, append_msg-Linear}

pub record ChatHistoryMessage : Type 0 where
  pub message_id : String
  pub sender_id : String
  pub session_id : String
  pub content : String
  pub timestamp : ℕ

-- IndexedMsgsCollection
abbrev pub Sessions : Type 0
Sessions = Map (List ChatHistoryMessage)

unfoldable pub get_messages_by_session_id : Sessions → String → List ChatHistoryMessage
get_messages_by_session_id store session_id = elim (Map.get store session_id) [
  | none ↦ []
  | some li ↦ li
]

-- make and copy of one list
abbrev pub copy_list : List ChatHistoryMessage → List ChatHistoryMessage
copy_list li = li

unfoldable pub deep_clone : Range (List ChatHistoryMessage) → Sessions → Sessions
unfolding SafeMap.copy_entries
deep_clone range store = SafeMap.copy_entries (some copy_list) Map.empty (range.order store)

unfoldable pub append_to_session : Sessions → ChatHistoryMessage → Sessions
unfolding get_messages_by_session_id
append_to_session store msg =
    Map.put store msg.session_id (get_messages_by_session_id store msg.session_id ++ msg ∷ [])

abbrev pub indexed : Range (List ChatHistoryMessage) → MsgsCollection Sessions ChatHistoryMessage
indexed range = record {
  empty = Map.empty;
  deep_clone = deep_clone range;
  append = append_to_session;
}

pub get_messages-deep_clone :
    (range : Range (List ChatHistoryMessage)) (store : Sessions) (k : String)
    → Map.get (deep_clone range store) k ≡ Map.get store k
unfolding deep_clone
get_messages-deep_clone range store k =
    get-copy_entries range (some copy_list) store k ∙ map_id (Map.get store k)
  where
    map_id : (o : Option (List ChatHistoryMessage)) → Option.map (clone_with (some copy_list)) o ≡ o
    map_id none = refl
    map_id (some l) = refl

others_only-nobody : {C : Type 0} (k : ℕ) (m : Memory C) → (others_only k [] m).ptr ≡ m.ptr
others_only-nobody zero m = refl
others_only-nobody (suc k) m = others_only-nobody k (allocate m)

pub get_messages-append_to_session :
    (c d : Sessions) (msg : ChatHistoryMessage) (j : String)
    → ((k : String) → Map.get c k ≡ Map.get d k)
    → get_messages_by_session_id (append_to_session c msg) j ≡ (
        if msg.session_id == j
        then get_messages_by_session_id d j ++ msg ∷ []
        else get_messages_by_session_id d j)
unfolding append_to_session get_messages_by_session_id
get_messages-append_to_session c d msg j agree = elim (Bool-cases (msg.session_id == j)) [
  | inr differ ↦
      rw
        (
          get-put c msg.session_id j (get_messages_by_session_id c msg.session_id ++ msg ∷ []),
          differ,
          agree j,
          get_messages_by_session_id,
          append_to_session,
        )
        refl
  | inl same ↦
      let eq : msg.session_id ≡ j = (eq_iff msg.session_id j).0 same in
      rw
        (
          get-put c msg.session_id j (get_messages_by_session_id c msg.session_id ++ msg ∷ []),
          same,
          get_messages_by_session_id,
          append_to_session,
        )
        (ap (λ k. get_messages_by_session_id c k ++ msg ∷ []) eq
          ∙ ap
              (λ (o : Option (List ChatHistoryMessage)).
                (elim o [ none ↦ [] | some li ↦ li ]) ++ msg ∷ [])
              (agree j))
]

-- Append of the chat bot's store, when no other goroutine runs, returns nil and publishes a store in
-- which the message is the last of its session, and the sessions are otherwise as they were.
pub append_msg-session :
    (range : Range (List ChatHistoryMessage)) (msg : ChatHistoryMessage) (m : Memory Sessions)
    (s : MsgsStore Sessions)
    → m.ptr ≡ some s
    → IsAllocated m
    → (m' : Memory Sessions) × (t : MsgsStore Sessions) × (append_msg (indexed range) msg [] m
        ≡ (m', none))
      × (m'.ptr ≡ some t)
      × ((k : String)
          → get_messages_by_session_id t.collection k ≡ (
              if msg.session_id == k
              then get_messages_by_session_id s.collection k ++ msg ∷ []
              else get_messages_by_session_id s.collection k))
unfolding updated_from append_to_session get_messages_by_session_id
append_msg-session range msg m s at alloc =
    elim (append_msg-Linear (indexed range) msg [] m tt alloc) [
      | inr (e, le) ↦ absurd (omega (arith, le))
      | inl (k, address, e) ↦ (
        appended (indexed range) msg address (others_only (suc k) [] m),
        updated_from (indexed range) (some s) msg address,
        e,
        ap (λ p. some (updated_from (indexed range) p msg address))
            (others_only-nobody (suc k) m ∙ at),
        λ j.
            get_messages-append_to_session (deep_clone range s.collection) s.collection msg j
              (get_messages-deep_clone range s.collection),
      )
    ]
