-- ===== src/Ws/Proxy/Order.antt =====
-- webrtc-server/pkg/ws_proxy: what is written is what returns, a call at a time.
use mathlib.Core.List.{append-nil}
use webrtc_chat.Prelude.{
  ℕ, String, false, ◌≡◌, ◌≢◌, refl, sym, ap, ◌∙◌, Option, List, [], ◌∷◌, ◌++◌, nat_eq,
  if◌then◌else◌, Bool-cases, inl, inr, arith,
}
use webrtc_chat.Ws.Proxy.{
  Caller, idle, calling, holding, awaiting, Loop, unstarted, offering, receiving, writing,
  answering, ended, Write, WebsocketWriteProxy, Serve, take, pass, write, answer, refuse, update,
  Step, serve, run, call, cancel, stop, Reach, start, later,
}

-- How far the goroutine has got with a caller.
pub data Stage : Type 0 where
  outside given : Stage
  passed : String → Stage

payload_of : Stage → String
payload_of (passed value) = value
payload_of st = ""

abbrev pub stage : Caller → Stage
stage idle = outside
stage (calling value) = outside
stage (holding value) = given
stage (awaiting value) = passed value

abbrev pub served : Loop → ℕ → Stage
served (receiving w) v = if nat_eq w v then given else outside
served (writing w value) v = if nat_eq w v then passed value else outside
served (answering w value err) v = if nat_eq w v then passed value else outside
served l v = outside

-- What is written and has not returned.
abbrev pub in_flight : Loop → List Write
in_flight (answering w value err) = record { caller = w; payload = value; err = err } ∷ []
in_flight l = []

pub record Inv (s : WebsocketWriteProxy) : Type 0 where
  pub agrees : (v : ℕ) → stage (s.callers v) ≡ served s.loop v
  pub logged : s.written ≡ s.returned ++ in_flight s.loop

-- A caller moves with the goroutine, which serves no other.
moves :
    (s : WebsocketWriteProxy) (l : Loop) (w : ℕ) (c : Caller)
    → ((v : ℕ) → stage (s.callers v) ≡ served s.loop v)
    → stage c ≡ served l w
    → ((v : ℕ) → nat_eq w v ≡ false → served l v ≡ served s.loop v)
    → (v : ℕ) → stage (update s.callers w c v) ≡ served l v
moves s l w c agrees there others v = elim (Bool-cases (nat_eq w v)) [
  | inl e ↦ let same : w ≡ v = ground arith in rw (e, there) (ap (served l) same)
  | inr e ↦ rw e (agrees v ∙ sym (others v e))
]

-- A caller that waits is answered about its own payload.
own_payload :
    (s : WebsocketWriteProxy) (w : ℕ) {value written : String} {err : Option String}
    → ((v : ℕ) → stage (s.callers v) ≡ served s.loop v)
    → s.loop ≡ answering w written err
    → s.callers w ≡ awaiting value
    → value ≡ written
unfolding payload_of
own_payload s w {value} {written} agrees answers waits =
    let same : passed value ≡ served s.loop w = (rw waits at (agrees w)) in
    let met : served s.loop w ≡ passed written = rw answers (ground arith) in
    ap payload_of (same ∙ met)

pub Serve-Inv : {s t : WebsocketWriteProxy} → Serve s t → Inv s → Inv t
Serve-Inv {s} (take w {value} at_select at_chan) i = record {
  agrees =
      moves s (receiving w) w (holding value) i.agrees (ground arith)
        (λ v e. rw (e, at_select) refl);
  logged = rw at_select at i.logged;
}
Serve-Inv {s} (pass w {value} received held) i = record {
  agrees =
      moves s (writing w value) w (awaiting value) i.agrees (ground arith)
        (λ v e. rw (received, e) refl);
  logged = rw received at i.logged;
}
Serve-Inv {s} (write w {value} err writes) i = record {
  agrees = λ v. i.agrees v ∙ rw writes refl;
  logged =
      ap (λ xs. xs ++ record { caller = w; payload = value; err = err } ∷ [])
        ((rw writes at i.logged) ∙ append-nil s.returned);
}
Serve-Inv {s} (answer w {value} {written} {err} answers waits) i =
    let at_end : s.written
        ≡ s.returned ++ record { caller = w; payload = written; err = err } ∷ [] =
      rw answers at i.logged in
    let own : value ≡ written = own_payload s w i.agrees answers waits in
    record {
      agrees = moves s offering w idle i.agrees refl (λ v e. rw (answers, e) refl);
      logged =
          at_end
          ∙ ap (λ p. s.returned ++ record { caller = w; payload = p; err = err } ∷ []) (sym own)
          ∙ sym (append-nil (s.returned ++ _));
    }
Serve-Inv {s} (refuse w closed at_chan) i = record {
  agrees = moves s s.loop w idle i.agrees (rw closed refl) (λ v e. refl);
  logged = i.logged;
}

Step-Inv : {s t : WebsocketWriteProxy} → Step s t → Inv s → Inv t
Step-Inv (serve x) i = Serve-Inv x i
Step-Inv (run fresh) i = record {
  agrees = λ v. i.agrees v ∙ rw fresh refl;
  logged = rw fresh at i.logged;
}
Step-Inv {s} (call w value quiet) i = record {
  agrees = moves s s.loop w (calling value) i.agrees (rw quiet at (i.agrees w)) (λ v e. refl);
  logged = i.logged;
}
Step-Inv cancel i = record { agrees = i.agrees; logged = i.logged }
Step-Inv (stop at_select done) i = record {
  agrees = λ v. i.agrees v ∙ rw at_select refl;
  logged = rw at_select at i.logged;
}

pub Reach-Inv : {s : WebsocketWriteProxy} → Reach s → Inv s
Reach-Inv start = record { agrees = λ v. refl; logged = refl }
Reach-Inv (later r x) = Step-Inv x (Reach-Inv r)

-- In every state that the proxy reaches, the calls of Conn.WriteJSON are, in order and each with its
-- caller, payload and error, the calls of WriteJSON that have returned without being refused, and then
-- the one that the goroutine has written and not answered, if there is one. At most one caller has the
-- goroutine's attention.
pub Reach-one_at_a_time :
    (s : WebsocketWriteProxy)
    → Reach s
    → (s.written ≡ s.returned ++ in_flight s.loop)
      × ((v w : ℕ) → stage (s.callers v) ≢ outside → stage (s.callers w) ≢ outside → v ≡ w)
Reach-one_at_a_time s r =
    let i = Reach-Inv r in
    (i.logged, λ v w a b. only (s.loop) v w (λ e. a (i.agrees v ∙ e)) (λ e. b (i.agrees w ∙ e)))
  where
    only : (l : Loop) (v w : ℕ) → served l v ≢ outside → served l w ≢ outside → v ≡ w
    only (receiving u) v w a b = ground arith
    only (writing u value) v w a b = ground arith
    only (answering u value err) v w a b = ground arith
    only unstarted v w a b = absurd (a refl)
    only offering v w a b = absurd (a refl)
    only ended v w a b = absurd (a refl)
