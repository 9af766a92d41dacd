-- ===== src/Agent/Reconnect/Reached.antt =====
-- webrtc-agents/pkg/ws_runner/websocket.go, Run: every connection, the last one or an earlier one, is
-- in a state that its own goroutines reach.
use mathlib.Core.Path.{subst}
use webrtc_chat.Prelude.{
  ℕ, zero, suc, String, Bool, ◌≡◌, refl, some, List, [], ◌∷◌, ◌++◌, done, >>=-eq-done, inl, inr,
  ◌&&◌, get_elem?, Bool-cases, arith,
}
use webrtc_chat.Agent.Runner.{Loop, start_messages_loop, Turn, take_turn, take_turns}
use webrtc_chat.Agent.Reconnect.{
  WebSocketRunner, Phase, dialing, Run, Dial, refused, unregistered, connected, Event, dial,
  in_loop, leave, wake, give_up, dial_turn, sends, is_returned, loop_turn, turn_at, leave_turn,
  run_turn, run_turns,
}

-- Every connection is in a state that its goroutines reach.
abbrev pub Reached : List Loop → Type 0
Reached ls =
    (k : ℕ) (l : Loop)
    → get_elem? ls k ≡ some l
    → (ts : List Turn) × (take_turns ts start_messages_loop ≡ done l)

take_turns-next :
    (l₀ : Loop) (ts : List Turn) (t : Turn) (l l' : Loop)
    → take_turns ts l₀ ≡ done l
    → take_turn t l ≡ done l'
    → take_turns (ts ++ t ∷ []) l₀ ≡ done l'
unfolding take_turns
take_turns-next l₀ [] t l l' h x = let same : l₀ ≡ l = cc h in rw (same, x) refl
take_turns-next l₀ (u ∷ ts) t l l' h x =
    let (m, first, rest) = >>=-eq-done (take_turn u l₀) (take_turns ts) h in
    rw first (take_turns-next m ts t l l' rest x)

loop_turn-done :
    (closed : Bool) (t : Turn) (l l' : Loop)
    → loop_turn closed t l ≡ done l'
    → take_turn t l ≡ done l'
unfolding loop_turn
loop_turn-done closed t l l' h = elim (Bool-cases (closed && sends t l)) [
  | inl late ↦ absurd (cc (late, h))
  | inr free ↦ cc (free, h)
]

Reached-cons :
    (l : Loop) (ls : List Loop)
    → (ts : List Turn) × (take_turns ts start_messages_loop ≡ done l)
    → Reached ls
    → Reached (l ∷ ls)
Reached-cons l ls first rest zero l' at =
    let same : l ≡ l' = cc at in
    subst (λ x. (ts : List Turn) × (take_turns ts start_messages_loop ≡ done x)) same first
Reached-cons l ls first rest (suc k) l' at = rest k l' at

turn_at-Reached :
    (closed : Bool) (k : ℕ) (t : Turn) (ls ls' : List Loop)
    → turn_at closed k t ls ≡ done ls'
    → Reached ls
    → Reached ls'
unfolding turn_at
turn_at-Reached closed k t [] ls' h r = let same : [] ≡ ls' = cc h in subst Reached same r
turn_at-Reached closed zero t (l ∷ ls) ls' h r =
    let (l', took, rest) = >>=-eq-done (loop_turn closed t l) (λ l'. done (l' ∷ ls)) h in
    let same : l' ∷ ls ≡ ls' = cc rest in
    let (ts, reached) = r zero l refl in
    let again =
      take_turns-next start_messages_loop ts t l l' reached (loop_turn-done closed t l l' took) in
    subst Reached same (Reached-cons l' ls (ts ++ t ∷ [], again) (λ k. r (suc k)))
turn_at-Reached closed (suc k) t (l ∷ ls) ls' h r =
    let (ls₁, took, rest) = >>=-eq-done (turn_at closed k t ls) (λ ls₁. done (l ∷ ls₁)) h in
    let same : l ∷ ls₁ ≡ ls' = cc rest in
    let kept = turn_at-Reached closed k t ls ls₁ took (λ j. r (suc j)) in
    subst Reached same (Reached-cons l ls₁ (r zero l refl) kept)

dial-Reached :
    (c : WebSocketRunner) (getenv : String → String) (d : Dial) (p : Phase) (s s' : Run)
    → done (elim p [ dialing ↦ dial_turn c getenv d s | _ ↦ s ]) ≡ done s'
    → Reached s.loops
    → Reached s'.loops
unfolding dial_turn take_turns
dial-Reached c getenv connected dialing s s' h r =
    let same : start_messages_loop ∷ s.loops ≡ s'.loops = cc h in
    subst Reached same (Reached-cons start_messages_loop s.loops ([], refl) r)
dial-Reached c getenv (refused e) dialing s s' h r =
    let same : s.loops ≡ s'.loops = cc h in subst Reached same r
dial-Reached c getenv (unregistered e) dialing s s' h r =
    let same : s.loops ≡ s'.loops = cc h in subst Reached same r
dial-Reached c getenv d p s s' h r =
    let same : s.loops ≡ s'.loops = ground arith in subst Reached same r

event-Reached :
    (c : WebSocketRunner) (e : Event) (s s' : Run)
    → run_turn c e s ≡ done s'
    → Reached s.loops
    → Reached s'.loops
unfolding run_turn leave_turn
event-Reached c (dial getenv d) s s' h r = dial-Reached c getenv d s.phase s s' h r
event-Reached c (in_loop k t) s s' h r =
    let (ls, took, rest) =
      >>=-eq-done (turn_at (is_returned s.phase) k t s.loops) (λ ls. done (record s { loops = ls }))
        h in
    let same : ls ≡ s'.loops = cc rest in
    subst Reached same (turn_at-Reached (is_returned s.phase) k t s.loops ls took r)
event-Reached c leave s s' h r =
    let same : s.loops ≡ s'.loops = ground arith in subst Reached same r
event-Reached c wake s s' h r = let same : s.loops ≡ s'.loops = ground arith in subst Reached same r
event-Reached c give_up s s' h r =
    let same : s.loops ≡ s'.loops = ground arith in subst Reached same r

pub run_turns-Reached :
    (c : WebSocketRunner) (es : List Event) (s s' : Run)
    → run_turns c es s ≡ done s'
    → Reached s.loops
    → Reached s'.loops
unfolding run_turns
run_turns-Reached c [] s s' h r = let same : s ≡ s' = cc h in subst (λ x. Reached x.loops) same r
run_turns-Reached c (e ∷ es) s s' h r =
    let (s₁, first, rest) = >>=-eq-done (run_turn c e s) (run_turns c es) h in
    run_turns-Reached c es s₁ s' rest (event-Reached c e s s₁ first r)
