-- ===== src/Examples/Maps.antt =====
-- webrtc-server/pkg/safemap, run on a map with one key, and across Close.
use webrtc_chat.Prelude.{
  ℕ, suc, ◌≡◌, refl, true, false, Option, none, Outcome, done, panic, closed_channel,
}
use webrtc_chat.Map
use webrtc_chat.Map.{Map, Range, entries_range}
use webrtc_chat.Errors.{Error}
use webrtc_chat.SafeMap.{SafeMap}
use webrtc_chat.SafeMap.Actor.{
  Machine, Reach, start, send, take_close, close, set, finished, request, closing, taken, here,
  next,
}
use webrtc_chat.SafeMap.Closing.{closed_map_panics}

abbrev counts : SafeMap ℕ
counts = record { store = Map.put Map.empty "a" 4; closed = false }

-- One key stored, then Close, then the signal taken.
abbrev filled : Machine ℕ
filled = record { map = counts; signalled = false; requests_closed = false }

abbrev closing_down : Machine ℕ
closing_down = record filled { signalled = true }

filled-reached : Reach ℕ (start ℕ) filled
unfolding start send Map.empty
filled-reached = next here (request (set "a" 4) finished refl)

closed-reached : Reach ℕ (start ℕ) (take_close closing_down)
unfolding close
closed-reached = next (next filled-reached (closing refl)) (taken refl refl refl)

closed_map_panics_example :
    (send {S = ℕ} (set "b" 5) (take_close closing_down) ≡ panic closed_channel)
    × (close (take_close closing_down) ≡ done (take_close closing_down))
unfolding take_close
closed_map_panics_example =
    closed_map_panics {m = take_close closing_down} (set "b" 5) closed-reached refl

-- A read-modify-write that returns the old value.
abbrev bump : ℕ → ℕ → Outcome (ℕ × ℕ × Option Error)
bump v s = done (suc v, v, none)

abbrev no_error : Option Error
no_error = none
