-- ===== src/Ws/Service/Ends.antt =====
-- webrtc-server/pkg/handler/handle_ws.go: what a connection leaves in the registry.
use webrtc_chat.Prelude.{
  ◌+◌, String, true, false, ◌≡◌, refl, sym, ap, ◌∙◌, none, List, [], ◌∷◌, ◌++◌, done, panic,
  nil_dereference, >>=-eq-done, ◌==◌, if◌then◌else◌, arith, Bool-cases, inl, inr,
}
use mathlib.Core.Path.{subst}
use webrtc_chat.ConnReg.{open_connection, close_connection}
use webrtc_chat.ConnReg.Lifecycle.{entry_of, gone, open_connection_lem}
use webrtc_chat.Ws.{World, Call, handle_text_message}
use webrtc_chat.Ws.Frame.{Framed, Framed-refl, Framed-trans}
use webrtc_chat.Ws.Frame.Message.{handle_text_message-Framed}
use webrtc_chat.Ws.Service.{
  Reader, reading, resetting, reporting, reader_ended, Service, Event, text, other_type, read_error,
  reset, report, time_out, close_service, after_text, call_of, read_event, happen, happen_all,
  open_service, serve_http,
}

-- The part of the world that is not the connection's, on an open registry.
abbrev Keeps : String → World → Service → Type 0
Keeps key w s = Framed key w s.world × (s.world.registry.datastore.closed ≡ false)

close_service-Keeps :
    (call : Call) (w : World) (s : Service)
    → Keeps call.key w s
    → Keeps call.key w (close_service call s)
unfolding close_connection
close_service-Keeps call w s (framed, is_open) =
    let (still_open, entries) = gone s.world.registry call.key is_open in
    (
      record {
        same_closed = still_open ∙ sym is_open ∙ framed.same_closed;
        same_counter = framed.same_counter;
        others = λ j differ. entries j ∙ rw differ (framed.others j differ);
        added = framed.added;
      },
      still_open,
    )

done-Keeps :
    {key : String} {w : World} {a b : Service} → done a ≡ done b → Keeps key w a → Keeps key w b
done-Keeps {key} {w} {a} {b} h k = let same : a ≡ b = cc h in subst (λ s. Keeps key w s) same k

read_event-Keeps :
    (call : Call) (r : Reader) (e : Event) (w : World) (s s' : Service)
    → read_event call r e s ≡ done s'
    → Keeps call.key w s
    → Keeps call.key w s'
unfolding read_event
read_event-Keeps call reading (text at m) w s s' h k =
    let (r, ran, rest) =
      >>=-eq-done (handle_text_message (call_of call at) m s.world) (λ r. done (after_text s r))
        h in
    let framed = handle_text_message-Framed (call_of call at) m s.world r.0 r.1 ran in
    done-Keeps rest (Framed-trans call.key w s.world r.0 k.0 framed, framed.same_closed ∙ k.1)
read_event-Keeps call reading read_error w s s' h k = done-Keeps h k
read_event-Keeps call resetting reset w s s' h k = elim (Bool-cases s.returned) [
  | inl late ↦ absurd (ground arith)
  | inr waits ↦ done-Keeps (rw waits at h) k
]
read_event-Keeps call reporting report w s s' h k = elim (Bool-cases s.returned) [
  | inl late ↦ done-Keeps (rw late at h) k
  | inr waits ↦
      done-Keeps (rw waits at h) (close_service-Keeps call w (record s { reader = reader_ended }) k)
]
read_event-Keeps call r e w s s' h k = done-Keeps h k

happen-Keeps :
    (call : Call) (e : Event) (w : World) (s s' : Service)
    → happen call e s ≡ done s'
    → Keeps call.key w s
    → Keeps call.key w s'
unfolding happen
happen-Keeps call time_out w s s' h k = elim (Bool-cases s.returned) [
  | inl late ↦ done-Keeps (rw late at h) k
  | inr waits ↦ done-Keeps (rw waits at h) (close_service-Keeps call w s k)
]
happen-Keeps call (text at m) w s s' h k = read_event-Keeps call s.reader (text at m) w s s' h k
happen-Keeps call other_type w s s' h k = done-Keeps h k
happen-Keeps call read_error w s s' h k = read_event-Keeps call s.reader read_error w s s' h k
happen-Keeps call reset w s s' h k = read_event-Keeps call s.reader reset w s s' h k
happen-Keeps call report w s s' h k = read_event-Keeps call s.reader report w s s' h k

happen_all-Keeps :
    (call : Call) (es : List Event) (w : World) (s s' : Service)
    → happen_all call es s ≡ done s'
    → Keeps call.key w s
    → Keeps call.key w s'
unfolding happen_all
happen_all-Keeps call [] w s s' h k = done-Keeps h k
happen_all-Keeps call (e ∷ es) w s s' h k =
    let (s₁, first, rest) = >>=-eq-done (happen call e s) (happen_all call es) h in
    happen_all-Keeps call es w s₁ s' rest (happen-Keeps call e w s s₁ first k)

happen_all-append :
    (call : Call) (es ds : List Event) (s s' : Service)
    → happen_all call es s ≡ done s'
    → happen_all call (es ++ ds) s ≡ happen_all call ds s'
unfolding happen_all
happen_all-append call [] ds s s' h = let same : s ≡ s' = cc h in ap (happen_all call ds) same
happen_all-append call (e ∷ es) ds s s' h =
    let (s₁, first, rest) = >>=-eq-done (happen call e s) (happen_all call es) h in
    rw first (happen_all-append call es ds s₁ s' rest)

-- Just opened.
opened-Keeps :
    (call : Call) (w : World)
    → w.registry.datastore.closed ≡ false
    → Keeps call.key (open_service call w).1.world (open_service call w).1
unfolding open_service open_connection
opened-Keeps call w is_open = (Framed-refl call.key _, rw is_open refl)

opened_entries :
    (call : Call) (w : World)
    → w.registry.datastore.closed ≡ false
    → ((j : String)
        → (call.key == j) ≡ false
        → entry_of (open_service call w).1.world.registry j ≡ entry_of w.registry j)
      × ((open_service call w).1.world.registry.counter ≡ w.registry.counter + 1)
unfolding open_service open_connection
opened_entries call w is_open =
    let (_, entries) = open_connection_lem w.registry call.key none call.now is_open in
    (λ j differ. entries j ∙ rw differ refl, refl)

-- On an open registry, while the handler of a connection waits, whatever events there were without a
-- panic: when the timer ends the handler returns, the entry of the connection is gone, the entries of
-- the others are as before the connection was opened, and the counter is one more.
pub time_out_lem :
    (call : Call) (es : List Event) (w : World) (s : Service)
    → w.registry.datastore.closed ≡ false
    → serve_http call es w ≡ done s
    → s.returned ≡ false
    → (s' : Service) × (serve_http call (es ++ time_out ∷ []) w ≡ done s')
      × (s'.returned ≡ true)
      × ((j : String)
          → entry_of s'.world.registry j ≡ (if call.key == j then none else entry_of w.registry j))
      × (s'.world.registry.counter ≡ w.registry.counter + 1)
unfolding serve_http close_connection
time_out_lem call es w s is_open ran waits =
    let call' = (open_service call w).0 in
    let s₀ = (open_service call w).1 in
    let kept = happen_all-Keeps call' es s₀.world s₀ s ran (opened-Keeps call w is_open) in
    let (closed', others) = gone s.world.registry call.key kept.1 in
    let (opened, counter) = opened_entries call w is_open in
    (
      close_service call' s,
      happen_all-append call' es (time_out ∷ []) s₀ s ran ∙ rw (waits, happen_all, happen) refl,
      refl,
      λ j. others j ∙ elim (Bool-cases (call.key == j)) [
        | inl own ↦ rw own refl
        | inr differ ↦ rw differ (kept.0.others j differ ∙ opened j differ)
      ],
      kept.0.same_counter ∙ counter,
    )

abbrev pub waiting : World → Reader → Service
waiting w r = record { world = w; reader = r; returned = false }

stays_reporting :
    (call : Call) (es : List Event) (w : World)
    → happen_all call es (record { world = w; reader = reporting; returned = true })
      ≡ done (record { world = w; reader = reporting; returned = true })
unfolding happen_all happen read_event
stays_reporting call [] w = refl
stays_reporting call (text at m ∷ es) w = stays_reporting call es w
stays_reporting call (other_type ∷ es) w = stays_reporting call es w
stays_reporting call (read_error ∷ es) w = stays_reporting call es w
stays_reporting call (reset ∷ es) w = stays_reporting call es w
stays_reporting call (report ∷ es) w = stays_reporting call es w
stays_reporting call (time_out ∷ es) w = stays_reporting call es w

-- A goroutine that is about to reset the timer after a text panics when the handler returns by the
-- timer first; one that reads stays at its channel for ever once the read fails, whatever happens.
pub time_out_strands :
    (call : Call) (w : World) (es : List Event)
    → (happen_all call (time_out ∷ reset ∷ []) (waiting w resetting) ≡ panic nil_dereference)
      × ((s' : Service) × (happen_all call (time_out ∷ read_error ∷ es) (waiting w reading)
            ≡ done s')
          × (s'.reader ≡ reporting))
unfolding happen_all happen read_event
time_out_strands call w es = (refl, (_, stays_reporting call es _, refl))
