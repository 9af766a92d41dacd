-- ===== src/SafeMap/Actor.antt =====
-- webrtc-server/pkg/safemap: the goroutine `run`, the channels that it selects on, and `Close`.
-- A method sends its request on `requestsCh` and waits; the actor receives while it runs, and a
-- send on a closed channel panics in the sender. `Close` closes `closeCh`, and the actor takes
-- that signal at some later turn of its loop: until then requests are still served.
use webrtc_chat.Prelude.{
  ℕ, String, ◌≡◌, Bool, true, false, Option, Outcome, done, panic, closed_channel, ◌>>=◌,
  if◌then◌else◌,
}
use webrtc_chat.Map.{Map, Range}
use webrtc_chat.Errors.{Error}
use webrtc_chat.SafeMap
use webrtc_chat.SafeMap.{SafeMap}

-- The requests of the methods of SafeMap.
pub data Request (V S : Type 0) : Type 0 where
  get : String → (V → S → Outcome (V × S × Option Error)) → S → Request V S
  set : String → V → Request V S
  delete : String → Request V S
  len : Request V S
  dump : Range V → Option (V → V) → Request V S
  walk : Range V → (String → V → S → Outcome (S × Bool × Option Error)) → S → Request V S

-- What the method returns.
pub data Reply (V S : Type 0) : Type 0 where
  got : S → Option Error → Bool → Reply V S
  finished : Reply V S
  counted : ℕ → Reply V S
  dumped : Option (Map V) → Reply V S
  walked : S → Option Error → Reply V S

module _ {V S : Type 0} where
  -- req()
  unfoldable pub run_request : Request V S → SafeMap V → Outcome (SafeMap V × Reply V S)
  unfolding SafeMap.get SafeMap.set SafeMap.delete SafeMap.len SafeMap.dump SafeMap.walk
  run_request (get key op s) sm = SafeMap.get sm key op s >>= λ r. done (r.0, got r.1 r.2 r.3)
  run_request (set key value) sm = done (SafeMap.set sm key value, finished)
  run_request (delete key) sm = done (SafeMap.delete sm key, finished)
  run_request len sm = done (sm, counted (SafeMap.len sm))
  run_request (dump range cloner) sm = done (sm, dumped (SafeMap.dump range sm cloner))
  run_request (walk range f s) sm = SafeMap.walk range sm f s >>= λ r. done (sm, walked r.0 r.1)

-- The struct SafeMap with the state of its channels: `signalled` is a closed `closeCh`, and
-- `requests_closed` a closed `requestsCh`, after which the actor has returned.
pub record Machine (V : Type 0) : Type 0 where
  pub map : SafeMap V
  pub signalled : Bool
  pub requests_closed : Bool

-- NewSafeMap
unfoldable pub start : (V : Type 0) → Machine V
unfolding SafeMap.new
start V = record { map = SafeMap.new; signalled = false; requests_closed = false }

module _ {V S : Type 0} where
  -- sm.requestsCh <- req, and the answer of the actor's turn that receives it.
  unfoldable pub send : Request V S → Machine V → Outcome (Machine V × Reply V S)
  unfolding run_request
  send r m =
      if m.requests_closed
      then panic closed_channel
      else run_request r m.map >>= λ a. done (record m { map = a.0 }, a.1)

module _ {V : Type 0} where
  -- case <-sm.closeCh
  unfoldable pub take_close : Machine V → Machine V
  take_close m = record m { map = record m.map { closed = true }; requests_closed = true }

  -- Close
  unfoldable pub close : Machine V → Outcome (Machine V)
  close m =
      if m.map.closed
      then done m
      else if m.signalled
      then panic closed_channel
      else done (record m { signalled = true })

-- One event: a request is served, Close is called, or the actor takes the close signal.
pub data Step {V : Type 0} (S : Type 0) (m n : Machine V) : Type 0 where
  request : (r : Request V S) (a : Reply V S) → send r m ≡ done (n, a) → Step S m n
  closing : close m ≡ done n → Step S m n
  taken : m.signalled ≡ true → m.requests_closed ≡ false → n ≡ take_close m → Step S m n

pub data Reach {V : Type 0} (S : Type 0) (m : Machine V) : Machine V → Type 0 where
  here : Reach S m m
  next : {n o : Machine V} → Reach S m n → Step S n o → Reach S m o
