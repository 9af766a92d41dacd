-- ===== src/Agent/ClockBot/Running.antt =====
-- webrtc-agents/pkg/handlers/clockbot_dc_handler.go: the clocks that run, and what they send.
use webrtc_chat.Prelude.{
  ℕ, suc, ◌<◌, ◌≤◌, String, true, false, ◌≡◌, refl, ap, ◌∙◌, none, some, List, [], ◌∷◌, ◌⊎◌, inl,
  inr, ◌==◌, eq_iff, eq_refl, nat_eq, is_some, arith, Bool-cases, Option-cases,
}
use webrtc_chat.Map
use webrtc_chat.Map.{get-put, get-put_self, get-remove, get-empty}
use webrtc_chat.Agent.Bots.{ChatMessage, Clock}
use webrtc_chat.Agent.ClockBot.{
  alone, ClockBotDcHandler, new_clock_bot, cancel_key, cancel, stop_clock_updater, MsgStream,
  created, is_created, store_cancel, start_clock, Callback, messaged, chat_closed, stream_closed,
  stream_failed, call_back, call_backs, obey, on_clock_message,
}

-- A context that was made and is not cancelled is the one that is kept for its peer.
pub record IsConsistent (bot : ClockBotDcHandler) : Type 0 where
  pub kept :
      (c : ℕ)
      → c < bot.next
      → bot.is_cancelled c ≡ false
      → Map.get bot.general_properties (cancel_key (bot.made_for c)) ≡ some c
  pub made : (k : String) (c : ℕ) → Map.get bot.general_properties k ≡ some c → c < bot.next
  pub unmade : (c : ℕ) → bot.next ≤ c → bot.is_cancelled c ≡ false

pub new-IsConsistent : IsConsistent new_clock_bot
new-IsConsistent = record {
  kept = λ c early running. absurd (omega (arith, early));
  made = λ k c at. absurd (cc (get-empty {V = ℕ} k, at));
  unmade = λ c late. refl;
}

stop_clock_updater-IsConsistent :
    (remote_node_id : String) (bot : ClockBotDcHandler)
    → IsConsistent bot
    → IsConsistent (stop_clock_updater alone remote_node_id bot)
unfolding stop_clock_updater
stop_clock_updater-IsConsistent remote bot v =
    elim (Option-cases (Map.get bot.general_properties (cancel_key remote))) [
      | inl idle ↦ rw (idle, stop_clock_updater) v
      | inr (c₀, at₀) ↦
          rw (at₀, stop_clock_updater)
            (record {
              kept = λ c early running.
                  let other : nat_eq c₀ c ≡ false = ground arith in
                  let was = v.kept c early (ground arith) in
                  ground (
                    arith,
                    get-remove bot.general_properties (cancel_key remote)
                        (cancel_key (bot.made_for c)),
                    eq_iff (cancel_key remote) (cancel_key (bot.made_for c)),
                  );
              made = λ k c at. elim (Bool-cases (cancel_key remote == k)) [
                | inl gone ↦
                    absurd (ground (arith, get-remove bot.general_properties (cancel_key remote) k))
                | inr other ↦
                    v.made k c
                      (ground (arith, get-remove bot.general_properties (cancel_key remote) k))
              ];
              unmade = λ c late.
                  let early = v.made (cancel_key remote) c₀ at₀ in ground (arith, v.unmade c late);
            })
    ]

-- The peer has no context left.
pub stop_clock_updater_lem :
    (remote_node_id : String) (bot : ClockBotDcHandler)
    → (Map.get
          (stop_clock_updater alone remote_node_id bot).general_properties
          (cancel_key remote_node_id)
        ≡ none)
      × ((stop_clock_updater alone remote_node_id bot).next ≡ bot.next)
unfolding stop_clock_updater
stop_clock_updater_lem remote bot =
    elim (Option-cases (Map.get bot.general_properties (cancel_key remote))) [
      | inl idle ↦ rw (idle, stop_clock_updater) (idle, refl)
      | inr (c₀, at₀) ↦
          rw (at₀, stop_clock_updater)
            (
              ground (
                arith,
                get-remove bot.general_properties (cancel_key remote) (cancel_key remote),
                eq_refl (cancel_key remote),
              ),
              refl,
            )
    ]

pub cancel-IsConsistent :
    (c : ℕ) (bot : ClockBotDcHandler)
    → c < bot.next
    → IsConsistent bot
    → IsConsistent (cancel c bot)
cancel-IsConsistent c₀ bot early₀ v = record {
  kept = λ c early running. v.kept c early (ground arith);
  made = v.made;
  unmade = λ c late. ground (arith, v.unmade c late);
}

store_cancel-IsConsistent :
    (remote_node_id : String) (bot : ClockBotDcHandler)
    → Map.get bot.general_properties (cancel_key remote_node_id) ≡ none
    → IsConsistent bot
    → IsConsistent (store_cancel remote_node_id bot)
store_cancel-IsConsistent remote bot idle v = record {
  kept = λ c early running. elim (Bool-cases (nat_eq bot.next c)) [
    | inl new ↦ ground (
      arith,
      get-put bot.general_properties (cancel_key remote) (cancel_key remote) bot.next,
      eq_refl (cancel_key remote),
    )
    | inr old ↦
        let was = v.kept c (ground arith) running in
        rw old (
          ground (
            arith,
            get-put bot.general_properties (cancel_key remote) (cancel_key (bot.made_for c))
                bot.next,
            eq_iff (cancel_key remote) (cancel_key (bot.made_for c)),
          ))
  ];
  made = λ k c at. elim (Bool-cases (cancel_key remote == k)) [
    | inl here ↦ ground (arith, get-put bot.general_properties (cancel_key remote) k bot.next)
    | inr other ↦
        let was =
          v.made k c
            (ground (arith, get-put bot.general_properties (cancel_key remote) k bot.next)) in
        omega (arith, was)
  ];
  unmade = λ c late. v.unmade c (omega (arith, late));
}

pub start_clock-IsConsistent :
    (remote_node_id : String) (stream : MsgStream) (bot : ClockBotDcHandler)
    → IsConsistent bot
    → IsConsistent (start_clock alone remote_node_id stream bot)
unfolding start_clock
start_clock-IsConsistent remote stream bot v =
    let stopped = stop_clock_updater alone remote bot in
    let w =
      store_cancel-IsConsistent remote stopped (stop_clock_updater_lem remote bot).0
        (stop_clock_updater-IsConsistent remote bot v) in
    elim (Bool-cases (is_created stream)) [
      | inl ok ↦ rw (ok, start_clock) w
      | inr bad ↦ rw (bad, start_clock) (cancel-IsConsistent stopped.next _ (omega arith) w)
    ]

obey-IsConsistent :
    (help : String) (clock : Clock) (now remote_node_id : String) (stream : MsgStream)
    (msg : ChatMessage) (text : String) (bot : ClockBotDcHandler)
    → IsConsistent bot
    → IsConsistent (obey alone help clock now remote_node_id stream msg text bot).1
unfolding obey
obey-IsConsistent help clock now remote stream msg text bot v =
    elim (Bool-cases (text == "/start")) [
      | inl is_start ↦ rw (is_start, obey) v
      | inr start ↦ elim (Bool-cases (text == "/now")) [
        | inl is_now ↦ rw (start, is_now, obey) (start_clock-IsConsistent remote stream bot v)
        | inr other ↦ rw (start, other, obey) v
      ]
    ]

call_back-IsConsistent :
    (c : Callback) (bot : ClockBotDcHandler)
    → IsConsistent bot
    → IsConsistent (call_back alone c bot)
unfolding call_back on_clock_message
call_back-IsConsistent (messaged help clock now remote stream none) bot v = v
call_back-IsConsistent (messaged help clock now remote stream (some msg)) bot v =
    elim (Bool-cases (is_some msg.ack)) [
      | inl an_ack ↦ rw (an_ack, call_back, on_clock_message) v
      | inr no_ack ↦ elim (Option-cases msg.message) [
        | inl empty ↦ rw (no_ack, empty, call_back, on_clock_message) v
        | inr (text, at) ↦
            rw (no_ack, at, call_back, on_clock_message)
              (obey-IsConsistent help clock now remote stream msg text bot v)
      ]
    ]
call_back-IsConsistent (chat_closed remote) bot v = stop_clock_updater-IsConsistent remote bot v
call_back-IsConsistent (stream_closed remote) bot v = stop_clock_updater-IsConsistent remote bot v
call_back-IsConsistent (stream_failed remote) bot v = stop_clock_updater-IsConsistent remote bot v

pub call_backs-IsConsistent :
    (cs : List Callback) (bot : ClockBotDcHandler)
    → IsConsistent bot
    → IsConsistent (call_backs cs bot)
unfolding call_backs
call_backs-IsConsistent [] bot v = v
call_backs-IsConsistent (c ∷ cs) bot v =
    call_backs-IsConsistent cs (call_back alone c bot) (call_back-IsConsistent c bot v)

abbrev pub after : List Callback → ClockBotDcHandler
after cs = call_backs cs new_clock_bot

-- Whatever callbacks a new clock bot gets, one after the other, of two contexts that it made for a peer one is cancelled.
one_clock :
    (cs : List Callback) (c d : ℕ)
    → c < d
    → d < (after cs).next
    → (after cs).made_for c ≡ (after cs).made_for d
    → ((after cs).is_cancelled c ≡ true) ⊎ ((after cs).is_cancelled d ≡ true)
one_clock cs c d older made same =
    let v = call_backs-IsConsistent cs new_clock_bot new-IsConsistent in
    elim (Bool-cases ((after cs).is_cancelled c)) [
      | inl cancelled ↦ inl cancelled
      | inr running_c ↦ elim (Bool-cases ((after cs).is_cancelled d)) [
        | inl cancelled ↦ inr cancelled
        | inr running_d ↦
            let at_c = v.kept c (omega (arith, older, made)) running_c in
            let at_d = v.kept d made running_d in
            let equal : c ≡ d = cc (same, at_c, at_d) in absurd (omega (arith, equal, older))
      ]
    ]

-- A clock that is started, with its stream made, is not cancelled.
pub start_clock-created :
    (remote_node_id : String) (bot : ClockBotDcHandler)
    → IsConsistent bot
    → ((start_clock alone remote_node_id created bot).is_cancelled bot.next ≡ false)
      × (Map.get
            (start_clock alone remote_node_id created bot).general_properties
            (cancel_key remote_node_id)
          ≡ some bot.next)
      × ((start_clock alone remote_node_id created bot).next ≡ suc bot.next)
unfolding start_clock
start_clock-created remote bot v =
    let stopped = stop_clock_updater alone remote bot in
    let (_, same) = stop_clock_updater_lem remote bot in
    (
      (stop_clock_updater-IsConsistent remote bot v).unmade bot.next (omega (arith, same)),
      get-put_self stopped.general_properties (cancel_key remote) stopped.next ∙ ap some same,
      ap suc same,
    )

-- After any callbacks, one after the other, two clocks are started for a peer, each with its stream: the second clock runs,
-- until the stream of the first is closed, whose callback cancels the second clock.
pub late_close_stops_clock :
    (cs : List Callback) (remote_node_id : String)
    → let first = start_clock alone remote_node_id created (after cs) in
      let second = start_clock alone remote_node_id created first in
      (second.is_cancelled first.next ≡ false)
      × ((call_back alone (stream_closed remote_node_id) second).is_cancelled first.next ≡ true)
unfolding call_back stop_clock_updater
late_close_stops_clock cs remote =
    let v = call_backs-IsConsistent cs new_clock_bot new-IsConsistent in
    let w = start_clock-IsConsistent remote created (after cs) v in
    let first = start_clock alone remote created (after cs) in
    let (running, at, _) = start_clock-created remote first w in
    (running, rw (at, stop_clock_updater) (ground arith))
