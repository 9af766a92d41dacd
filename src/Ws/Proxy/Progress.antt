-- ===== src/Ws/Proxy/Progress.antt =====
-- webrtc-server/pkg/ws_proxy: a call that is made can return.
use webrtc_chat.Prelude.{ℕ, String, ◌≡◌, ◌≢◌, refl, ◌∙◌, Option, none, ◌⊎◌, inl, inr, arith}
use webrtc_chat.Ws.Proxy.{
  Caller, idle, calling, holding, awaiting, Loop, unstarted, offering, receiving, writing,
  answering, ended, WebsocketWriteProxy, Serve, take, pass, write, answer, refuse, update, Reach,
}
use webrtc_chat.Ws.Proxy.Order.{outside, given, passed, stage, Inv, Serve-Inv, Reach-Inv}

-- Some steps of calls and of the goroutine that serves them.
pub data Serves : WebsocketWriteProxy → WebsocketWriteProxy → Type 0 where
  still : {s : WebsocketWriteProxy} → Serves s s
  then_step : {s t u : WebsocketWriteProxy} → Serve s t → Serves t u → Serves s u

-- The call returns, and the goroutine is in its select.
abbrev Returns : WebsocketWriteProxy → ℕ → Type 0
Returns s w = (t : WebsocketWriteProxy) × Serves s t × (t.loop ≡ offering) × (t.callers w ≡ idle)

after_step : {s t : WebsocketWriteProxy} {w : ℕ} → Serve s t → Returns t w → Returns s w
after_step x (u, xs, l, e) = (u, then_step x xs, l, e)

update_self : (callers : ℕ → Caller) (w : ℕ) (c : Caller) → update callers w c w ≡ c
update_self callers w c = ground arith

is_given : (c : Caller) → stage c ≡ given → (value : String) × (c ≡ holding value)
is_given idle h = absurd (cc h)
is_given (calling value) h = absurd (cc h)
is_given (holding value) h = (value, refl)
is_given (awaiting value) h = absurd (cc h)

is_passed : (c : Caller) {p : String} → stage c ≡ passed p → (value : String) × (c ≡ awaiting value)
is_passed idle h = absurd (cc h)
is_passed (calling value) h = absurd (cc h)
is_passed (holding value) h = absurd (cc h)
is_passed (awaiting value) h = (value, refl)

is_outside :
    (c : Caller) → stage c ≡ outside → (c ≡ idle) ⊎ ((value : String) × (c ≡ calling value))
is_outside idle h = inl refl
is_outside (calling value) h = inr (value, refl)
is_outside (holding value) h = absurd (cc h)
is_outside (awaiting value) h = absurd (cc h)

-- A caller that has the goroutine's attention returns.
answers_return :
    (s : WebsocketWriteProxy) (w : ℕ) {value written : String} {err : Option String}
    → s.loop ≡ answering w written err
    → s.callers w ≡ awaiting value
    → Returns s w
answers_return s w answers waits =
    (_, then_step (answer w answers waits) still, refl, update_self s.callers w idle)

writes_return :
    (s : WebsocketWriteProxy) (w : ℕ) {value written : String}
    → s.loop ≡ writing w written
    → s.callers w ≡ awaiting value
    → Returns s w
writes_return s w writes waits = after_step (write w none writes) (answers_return _ w refl waits)

holds_return :
    (s : WebsocketWriteProxy) (w : ℕ) {value : String}
    → s.loop ≡ receiving w
    → s.callers w ≡ holding value
    → Returns s w
holds_return s w {value} received held =
    after_step (pass w received held)
      (writes_return _ w refl (update_self s.callers w (awaiting value)))

calls_return :
    (s : WebsocketWriteProxy) (w : ℕ)
    → s.loop ≡ offering
    → stage (s.callers w) ≡ outside
    → Returns s w
calls_return s w at_select out = elim (is_outside (s.callers w) out) [
  | inl e ↦ (s, still, at_select, e)
  | inr (value, e) ↦
      after_step (take w at_select e)
        (holds_return _ w refl (update_self s.callers w (holding value)))
]

Serves-Inv : {s t : WebsocketWriteProxy} → Serves s t → Inv s → Inv t
Serves-Inv still i = i
Serves-Inv (then_step x xs) i = Serves-Inv xs (Serve-Inv x i)

continues : {s t u : WebsocketWriteProxy} → Serves s t → Serves t u → Serves s u
continues still ys = ys
continues (then_step x xs) ys = then_step x (continues xs ys)

-- While the goroutine serves a caller, that call returns, and then any other.
after_return : {s : WebsocketWriteProxy} {v : ℕ} (w : ℕ) → Inv s → Returns s v → Returns s w
after_return w i (t, xs, at_select, e) =
    let out : stage (t.callers w) ≡ outside = (Serves-Inv xs i).agrees w ∙ rw at_select refl in
    let (u, ys, l, quiet) = calls_return t w at_select out in (u, continues xs ys, l, quiet)

served_return :
    (s : WebsocketWriteProxy) (l : Loop) (w : ℕ)
    → Inv s
    → s.loop ≡ l
    → l ≢ unstarted
    → l ≢ ended
    → Returns s w
served_return s unstarted w i at begun going = absurd (begun refl)
served_return s ended w i at begun going = absurd (going refl)
served_return s offering w i at begun going = calls_return s w at (i.agrees w ∙ rw at refl)
served_return s (receiving v) w i at begun going =
    let (value, held) = is_given (s.callers v) (i.agrees v ∙ rw at (ground arith)) in
    after_return w i (holds_return s v at held)
served_return s (writing v p) w i at begun going =
    let (value, waits) = is_passed (s.callers v) {p = p} (i.agrees v ∙ rw at (ground arith)) in
    after_return w i (writes_return s v at waits)
served_return s (answering v p err) w i at begun going =
    let (value, waits) = is_passed (s.callers v) {p = p} (i.agrees v ∙ rw at (ground arith)) in
    after_return w i (answers_return s v at waits)

is_ended : (l : Loop) → (l ≡ ended) ⊎ (l ≢ ended)
is_ended ended = inl refl
is_ended unstarted = inr (λ e. cc e)
is_ended offering = inr (λ e. cc e)
is_ended (receiving v) = inr (λ e. cc e)
is_ended (writing v p) = inr (λ e. cc e)
is_ended (answering v p err) = inr (λ e. cc e)

-- In every state that is reached once Run was called, a caller, whatever it waits for, returns by steps
-- of calls and of the goroutine alone, without a new call and with the context as it is.
pub Reach-can_return :
    (s : WebsocketWriteProxy)
    → Reach s
    → s.loop ≢ unstarted
    → (w : ℕ) → (t : WebsocketWriteProxy) × Serves s t × (t.callers w ≡ idle)
Reach-can_return s r begun w =
    let i = Reach-Inv r in
    elim (is_ended s.loop) [
      | inr going ↦
          let (t, xs, l, quiet) = served_return s s.loop w i refl begun going in (t, xs, quiet)
      | inl closed ↦ elim (is_outside (s.callers w) (i.agrees w ∙ rw closed refl)) [
        | inl quiet ↦ (s, still, quiet)
        | inr (value, called) ↦
            (_, then_step (refuse w closed called) still, update_self s.callers w idle)
      ]
    ]
