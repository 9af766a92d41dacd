-- ===== src/SafeMap/Closing.antt =====
-- webrtc-server/pkg/safemap: what callers meet once Close has been called.
use webrtc_chat.Prelude.{
  String, ◌≡◌, refl, ◌⊎◌, Bool, true, false, Option, none, arith, Outcome, done, panic,
  closed_channel, is_some,
}
use webrtc_chat.Map
use webrtc_chat.Map.{Map}
use webrtc_chat.Errors.{Error}
use webrtc_chat.SafeMap.{SafeMap}
use webrtc_chat.SafeMap.Actor.{
  Request, Reply, Machine, Step, Reach, run_request, start, send, take_close, close, request, got,
  closing, taken, here, next, get, set, delete, len, dump, walk,
}

-- The flag and the request channel are closed together, after the signal.
abbrev pub IsConsistent : {V : Type 0} → Machine V → Type 0
IsConsistent m =
    (m.map.closed ≡ m.requests_closed) × (m.requests_closed ≡ true → m.signalled ≡ true)

module _ {V S : Type 0} where
  -- No request changes the flag.
  closed-run_request :
      (r : Request V S) (sm sm' : SafeMap V) (a : Reply V S)
      → run_request r sm ≡ done (sm', a)
      → sm'.closed ≡ sm.closed
  unfolding run_request
  closed-run_request (get key op s) sm sm' a h = ground arith
  closed-run_request (set key v) sm sm' a h = ground arith
  closed-run_request (delete key) sm sm' a h = ground arith
  closed-run_request len sm sm' a h = ground arith
  closed-run_request (dump range f) sm sm' a h = ground arith
  closed-run_request (walk range f s) sm sm' a h = ground arith

  send-fields :
      (r : Request V S) (m n : Machine V) (a : Reply V S)
      → send r m ≡ done (n, a)
      → (m.requests_closed ≡ false)
        × (n.map.closed ≡ m.map.closed)
        × (n.signalled ≡ m.signalled)
        × (n.requests_closed ≡ m.requests_closed)
  unfolding send
  send-fields (get key op s) m n a h = ground arith
  send-fields _ m n a h = ground arith

  Step-IsConsistent : {m n : Machine V} → Step S m n → IsConsistent m → IsConsistent n
  unfolding send close take_close
  Step-IsConsistent {m} {n} (request r a e) c = ground (arith, send-fields r m n a e)
  Step-IsConsistent (closing e) c = ground arith
  Step-IsConsistent (taken s o e) c = ground arith

  pub Reach-IsConsistent : {m : Machine V} → Reach S (start V) m → IsConsistent m
  unfolding start
  Reach-IsConsistent here = (refl, λ e. cc)
  Reach-IsConsistent (next r st) = Step-IsConsistent st (Reach-IsConsistent r)

  -- Once the actor has taken the close signal, every method that sends a request panics, whatever
  -- the request, and Close returns and changes nothing.
  pub closed_map_panics :
      {m : Machine V} (r : Request V S)
      → Reach S (start V) m
      → m.map.closed ≡ true
      → (send r m ≡ panic closed_channel) × (close m ≡ done m)
  unfolding send close
  closed_map_panics r reach h = ground (arith, Reach-IsConsistent reach)

  -- A Get that is answered ran on an open map: it reports a key as found exactly when the key is
  -- stored, and for a key that is not stored it returns no error, so never ErrMapClosed.
  pub answered_get :
      {m n : Machine V} (key : String) (op : V → S → Outcome (V × S × Option Error)) (s s' : S)
      (e : Option Error) (found : Bool)
      → Reach S (start V) m
      → send (get key op s) m ≡ done (n, got s' e found)
      → (m.map.closed ≡ false)
        × (found ≡ is_some (Map.get m.map.store key))
        × ((found ≡ true) ⊎ (e ≡ none))
  unfolding send
  answered_get key op s s' e found reach h = ground (arith, Reach-IsConsistent reach)

module _ {V : Type 0} where
  -- A second Close panics while the actor has not taken the signal of the first, and returns once
  -- it has.
  pub close_twice :
      (m : Machine V) {n : Machine V}
      → m.map.closed ≡ false
      → close m ≡ done n
      → (close n ≡ panic closed_channel) × (close (take_close n) ≡ done (take_close n))
  unfolding close take_close
  close_twice m h e = ground arith
