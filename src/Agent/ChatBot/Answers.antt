-- ===== src/Agent/ChatBot/Answers.antt =====
-- webrtc-agents/pkg/handlers/chatbot_dc_handler.go: what a text is answered with, and what is kept of
-- it.
use webrtc_chat.Prelude.{
  ℕ, suc, String, true, ◌≡◌, refl, ap, ◌∙◌, Option, none, some, List, [], ◌∷◌, ◌++◌, map, eq_refl,
  arith,
}
use webrtc_chat.Map
use webrtc_chat.Map.{Range, get-empty}
use webrtc_chat.Agent.MsgsStore.{
  MsgsStore, Memory, same_ptr, compare_and_swap, updated_from, turn, append_loop, append_msg,
}
use webrtc_chat.Agent.MsgsStore.History.{
  ChatHistoryMessage, Sessions, get_messages_by_session_id, indexed, get_messages-append_to_session,
  get_messages-deep_clone, deep_clone,
}
use webrtc_chat.Agent.Bots.{ChatMessage, Clock, respond, ack_of}
use webrtc_chat.Agent.ChatBot.{
  ChatBotDcHandler, Meanwhile, timestamped, llm_message, stored, get_conversation_history,
  system_prompt, response_text, session_of, generate_llm_response, user_message, bot_message,
  send_chat_response, answer_stored, content_of, on_chat_message,
}

abbrev with_message :
    Range (List ChatHistoryMessage) → ChatHistoryMessage → Memory Sessions → Memory Sessions
with_message range msg mem = record {
  ptr = some (updated_from (indexed range) mem.ptr msg mem.next);
  next = suc mem.next;
}

same_ptr_refl : (p : Option (MsgsStore Sessions)) → same_ptr p p ≡ true
same_ptr_refl none = refl
same_ptr_refl (some s) = ground arith

first_turn :
    (range : Range (List ChatHistoryMessage)) (msg : ChatHistoryMessage) (n : ℕ)
    (mem : Memory Sessions)
    → append_loop (indexed range) (suc n) msg [] mem ≡ (with_message range msg mem, none)
unfolding append_loop turn compare_and_swap
first_turn range msg n mem = rw (same_ptr_refl mem.ptr) refl

append_undisturbed :
    (range : Range (List ChatHistoryMessage)) (msg : ChatHistoryMessage) (mem : Memory Sessions)
    → append_msg (indexed range) msg [] mem ≡ (with_message range msg mem, none)
unfolding append_msg
append_undisturbed range msg mem = first_turn range msg 9999 mem

no_messages : (k : String) → get_messages_by_session_id Map.empty k ≡ []
unfolding get_messages_by_session_id Map.get Map.empty
no_messages k = refl

stored-with_message :
    (range : Range (List ChatHistoryMessage)) (msg : ChatHistoryMessage)
    (p : Option (MsgsStore Sessions)) (next : ℕ)
    → stored (with_message range msg (record { ptr = p; next = next })) msg.session_id
      ≡ stored (record { ptr = p; next = next }) msg.session_id ++ msg ∷ []
unfolding stored updated_from
stored-with_message range msg none next =
    get_messages-append_to_session Map.empty Map.empty msg msg.session_id (λ k. refl)
    ∙ rw (eq_refl msg.session_id) (ap (λ xs. xs ++ msg ∷ []) (no_messages msg.session_id))
stored-with_message range msg (some s) next =
    get_messages-append_to_session (deep_clone range s.collection) s.collection msg msg.session_id
      (get_messages-deep_clone range s.collection)
    ∙ rw (eq_refl msg.session_id) refl

history_lem :
    (h : ChatBotDcHandler) (p : Option (MsgsStore Sessions)) (next : ℕ)
    (session_id our_node_id : String) (xs : List ChatHistoryMessage) (x : ChatHistoryMessage)
    → stored (record { ptr = p; next = next }) session_id ≡ xs ++ x ∷ []
    → get_conversation_history h (record { ptr = p; next = next }) session_id our_node_id
      ≡ map (llm_message our_node_id) (h.sort (map timestamped (xs ++ x ∷ [])))
unfolding get_conversation_history stored
history_lem h none next session_id our [] x e = absurd (cc e)
history_lem h none next session_id our (y ∷ ys) x e = absurd (cc e)
history_lem h (some s) next session_id our xs x e =
    ap (λ ys. map (llm_message our) (h.sort (map timestamped ys))) e

-- The answer of the language model to the system prompt and a history.
abbrev pub answer_to : ChatBotDcHandler → String → List ChatHistoryMessage → String
answer_to h our_node_id history = response_text (
    h.generate (record {
      model = h.model;
      messages = system_prompt ∷ map (llm_message our_node_id) (h.sort (map timestamped history));
    }))

-- The other callbacks leave the messages of a session.
abbrev pub Leaves : String → (Memory Sessions → Memory Sessions) → Type 0
Leaves session_id f = (mem : Memory Sessions) → stored (f mem) session_id ≡ stored mem session_id

abbrev pub undisturbed :
    (Memory Sessions → Memory Sessions) → (Memory Sessions → Memory Sessions) → Meanwhile
undisturbed before_load before_store = record {
  first_append = [];
  before_load = before_load;
  before_store = before_store;
  second_append = [];
}

answer_stored_lem :
    (h : ChatBotDcHandler) (before_load before_store : Memory Sessions → Memory Sessions)
    (clock : Clock) (our_node_id remote_node_id : String) (msg : ChatMessage) (text : String)
    (mem : Memory Sessions)
    → generate_llm_response h (before_load mem) remote_node_id our_node_id ≡ text
    → answer_stored h
        (undisturbed before_load before_store)
        clock
        our_node_id
        remote_node_id
        msg
        (mem, none)
      ≡ (
        respond clock msg text ∷ [],
        with_message h.range
            (bot_message our_node_id remote_node_id clock text)
            (before_store (before_load mem)),
      )
unfolding answer_stored send_chat_response
answer_stored_lem h before_load before_store clock our remote msg text mem generated =
    rw
      (
        generated,
        append_undisturbed h.range (bot_message our remote clock text)
            (before_store (before_load mem)),
      )
      refl

-- While the Appends are undisturbed, and the other callbacks leave the session's messages: a text of a
-- peer is acknowledged and then answered by what the language model makes of the system prompt and the
-- sorted history of the session, the text included; and the text and then the answer are stored.
pub on_chat_message_lem :
    (h : ChatBotDcHandler) (before_load before_store : Memory Sessions → Memory Sessions)
    (clock : Clock) (our_node_id remote_node_id : String) (msg : ChatMessage) (content : String)
    (mem : Memory Sessions)
    → Leaves (session_of our_node_id remote_node_id) before_load
    → Leaves (session_of our_node_id remote_node_id) before_store
    → msg.ack ≡ none
    → content_of msg ≡ some content
    → let history =
        stored mem (session_of our_node_id remote_node_id)
        ++ user_message our_node_id remote_node_id msg content ∷ [] in
      let text = answer_to h our_node_id history in
      (mem' : Memory Sessions) × (on_chat_message h
          (undisturbed before_load before_store)
          clock
          our_node_id
          remote_node_id
          (some msg)
          mem
        ≡ (ack_of clock msg ∷ respond clock msg text ∷ [], mem'))
      × (stored mem' (session_of our_node_id remote_node_id)
          ≡ history ++ bot_message our_node_id remote_node_id clock text ∷ [])
unfolding on_chat_message generate_llm_response
on_chat_message_lem h before_load before_store clock our remote msg content mem keeps_load
      keeps_store no_ack has_text =
    let session = session_of our remote in
    let asked = user_message our remote msg content in
    let mem₁ = before_load (with_message h.range asked mem) in
    let kept : stored mem₁ session ≡ stored mem session ++ asked ∷ [] =
      keeps_load (with_message h.range asked mem)
      ∙ stored-with_message h.range asked mem.ptr mem.next in
    let history = stored mem session ++ asked ∷ [] in
    let text = answer_to h our history in
    let generated : generate_llm_response h mem₁ remote our ≡ text =
      rw (history_lem h mem₁.ptr mem₁.next session our (stored mem session) asked kept) refl in
    let answered = bot_message our remote clock text in
    let mem₂ = before_store mem₁ in
    (
      with_message h.range answered mem₂,
      rw (no_ack, has_text, append_undisturbed h.range asked mem)
          (ap (λ r. (ack_of clock msg ∷ r.0, r.1))
            (answer_stored_lem h before_load before_store clock our remote msg text
              (with_message h.range asked mem) generated)),
      stored-with_message h.range answered mem₂.ptr mem₂.next
          ∙ ap (λ xs. xs ++ answered ∷ []) (keeps_store mem₁ ∙ kept),
    )
