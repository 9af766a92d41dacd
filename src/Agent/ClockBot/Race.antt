-- ===== src/Agent/ClockBot/Race.antt =====
-- webrtc-agents/pkg/handlers/clockbot_dc_handler.go: the close of a stream while /now is obeyed.
use mathlib.Core.Path.{subst}
use webrtc_chat.Prelude.{
  ℕ, ◌<◌, String, Bool, true, false, ◌≡◌, refl, sym, ◌∙◌, none, some, eq_refl, arith, List,
}
use webrtc_chat.Map
use webrtc_chat.Map.{get-remove}
use webrtc_chat.Agent.ClockBot.{
  ClockBotDcHandler, Others, alone, new_clock_bot, cancel_key, cancel, stop_clock_updater, created,
  start_clock, Callback, stream_closed, call_back,
}
use webrtc_chat.Agent.ClockBot.Running.{
  new-IsConsistent, cancel-IsConsistent, stop_clock_updater_lem, start_clock-IsConsistent,
  call_backs-IsConsistent, after, start_clock-created,
}

-- A clock is started for the peer between the Load and the call, or between that and the Delete.
abbrev pub overtaken : Bool → String → Others
overtaken true remote_node_id = record alone {
  before_cancel = start_clock alone remote_node_id created;
}
overtaken false remote_node_id = record alone {
  before_delete = start_clock alone remote_node_id created;
}

-- Two contexts of a peer that are not cancelled.
pub record TwoRun (remote_node_id : String) (c d : ℕ) (bot : ClockBotDcHandler) : Type 0 where
  pub older : c < d
  pub made : d < bot.next
  pub made_for_c : bot.made_for c ≡ remote_node_id
  pub made_for_d : bot.made_for d ≡ remote_node_id
  pub runs_c : bot.is_cancelled c ≡ false
  pub runs_d : bot.is_cancelled d ≡ false

start_clock-made_for :
    (remote_node_id : String) (bot : ClockBotDcHandler)
    → (start_clock alone remote_node_id created bot).made_for bot.next ≡ remote_node_id
unfolding start_clock
start_clock-made_for remote bot = let same = (stop_clock_updater_lem remote bot).1 in ground arith

-- A start with nothing to stop.
start_clock-idle :
    (remote_node_id : String) (c : ℕ) (bot : ClockBotDcHandler)
    → Map.get bot.general_properties (cancel_key remote_node_id) ≡ none
    → c < bot.next
    → bot.made_for c ≡ remote_node_id
    → bot.is_cancelled c ≡ false
    → bot.is_cancelled bot.next ≡ false
    → TwoRun remote_node_id c bot.next (start_clock alone remote_node_id created bot)
unfolding start_clock stop_clock_updater
start_clock-idle remote c bot idle older made_for runs unmade =
    rw (idle, start_clock, stop_clock_updater)
      (record {
        older = older;
        made = omega arith;
        made_for_c = ground arith;
        made_for_d = ground arith;
        runs_c = runs;
        runs_d = unmade;
      })

abbrev deleted : String → ClockBotDcHandler → ClockBotDcHandler
deleted remote_node_id bot = record bot {
  general_properties = Map.remove bot.general_properties (cancel_key remote_node_id);
}

-- The Delete removes the function of the clock that was started in between.
deleted_lem :
    (remote_node_id : String) (c : ℕ) (bot : ClockBotDcHandler)
    → c < bot.next
    → bot.made_for c ≡ remote_node_id
    → bot.is_cancelled c ≡ false
    → bot.is_cancelled bot.next ≡ false
    → let left = deleted remote_node_id bot in
      (Map.get left.general_properties (cancel_key remote_node_id) ≡ none)
      × TwoRun remote_node_id c left.next (start_clock alone remote_node_id created left)
deleted_lem remote c bot older made_for runs unmade =
    let left = deleted remote bot in
    let gone : Map.get left.general_properties (cancel_key remote) ≡ none =
      get-remove bot.general_properties (cancel_key remote) (cancel_key remote)
      ∙ rw (eq_refl (cancel_key remote)) refl in
    (gone, start_clock-idle remote c left gone older made_for runs unmade)

-- What the close of a stream leaves.
closed_stream :
    (others : Others) (remote_node_id : String) (c : ℕ) (bot : ClockBotDcHandler)
    → Map.get bot.general_properties (cancel_key remote_node_id) ≡ some c
    → call_back others (stream_closed remote_node_id) bot
      ≡ deleted remote_node_id (others.before_delete (cancel c (others.before_cancel bot)))
unfolding call_back stop_clock_updater
closed_stream others remote c bot at = rw (at, call_back, stop_clock_updater) refl

-- What is left, and what a third start makes of it.
abbrev Lost : String → ℕ → ClockBotDcHandler → Type 0
Lost remote_node_id c bot =
    (Map.get bot.general_properties (cancel_key remote_node_id) ≡ none)
    × TwoRun remote_node_id c bot.next (start_clock alone remote_node_id created bot)

-- After any callbacks, one after the other, a clock is started for a peer; then a stream of the peer
-- is closed, and while its callback runs, before or after it calls the cancel function that it has
-- loaded, the next clock is started. The callback deletes the cancel function of that clock: nothing
-- of the peer is kept, and when a third clock is started, the second and the third both run.
pub close_race_leaves_two :
    (cs : List Callback) (remote_node_id : String) (before_call : Bool)
    → let first = start_clock alone remote_node_id created (after cs) in
      let raced =
        call_back (overtaken before_call remote_node_id) (stream_closed remote_node_id) first in
      (Map.get raced.general_properties (cancel_key remote_node_id) ≡ none)
      × TwoRun remote_node_id first.next raced.next (start_clock alone remote_node_id created raced)
close_race_leaves_two cs remote true =
    let v = call_backs-IsConsistent cs new_clock_bot new-IsConsistent in
    let first = start_clock alone remote created (after cs) in
    let w = start_clock-IsConsistent remote created (after cs) v in
    let (_, at, n) = start_clock-created remote (after cs) v in
    let second = start_clock alone remote created first in
    let (runs, _, m) = start_clock-created remote first w in
    let u = start_clock-IsConsistent remote created first w in
    let for_peer = start_clock-made_for remote first in
    subst (λ r. Lost remote first.next r)
      (sym (closed_stream (overtaken true remote) remote (after cs).next first at))
      (deleted_lem remote first.next (cancel (after cs).next second) (omega (arith, m)) for_peer
        (ground (arith, runs, n)) (ground (arith, u.unmade second.next (omega arith), m, n)))
close_race_leaves_two cs remote false =
    let v = call_backs-IsConsistent cs new_clock_bot new-IsConsistent in
    let first = start_clock alone remote created (after cs) in
    let w = start_clock-IsConsistent remote created (after cs) v in
    let (_, at, n) = start_clock-created remote (after cs) v in
    let still = cancel (after cs).next first in
    let x = cancel-IsConsistent (after cs).next first (omega (arith, n)) w in
    let second = start_clock alone remote created still in
    let (runs, _, m) = start_clock-created remote still x in
    let u = start_clock-IsConsistent remote created still x in
    let for_peer = start_clock-made_for remote still in
    subst (λ r. Lost remote first.next r)
      (sym (closed_stream (overtaken false remote) remote (after cs).next first at))
      (deleted_lem remote first.next second (omega (arith, m)) for_peer runs
        (u.unmade second.next (omega arith)))
