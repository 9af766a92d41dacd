-- ===== src/Examples/Proxies.antt =====
-- webrtc-server/pkg/ws_proxy: two callers at once.
use webrtc_chat.Prelude.{ℕ, ◌≡◌, ◌≢◌, refl, some, ◌++◌}
use webrtc_chat.Ws.Proxy.{
  idle, WebsocketWriteProxy, take, pass, write, serve, run, call, Reach, start, later,
}
use webrtc_chat.Ws.Proxy.Order.{outside, stage, in_flight, Reach-one_at_a_time}
use webrtc_chat.Ws.Proxy.Progress.{Serves, Reach-can_return}

-- Callers 1 and 2 have called; the write of 2 failed, and it waits for the answer.
abbrev contended : (s : WebsocketWriteProxy) × Reach s
contended = (
  _,
  later
      (later
        (later (later (later (later start (run refl)) (call 1 "a" refl)) (call 2 "b" refl))
          (serve (take 2 refl refl)))
        (serve (pass 2 refl refl)))
      (serve (write 2 (some "broken pipe") refl)),
)

Reach-one_at_a_time_example :
    (contended.0.written ≡ contended.0.returned ++ in_flight contended.0.loop)
    × ((v w : ℕ)
        → stage (contended.0.callers v) ≢ outside
        → stage (contended.0.callers w) ≢ outside
        → v ≡ w)
Reach-one_at_a_time_example = Reach-one_at_a_time contended.0 contended.1

Reach-can_return_example : (t : WebsocketWriteProxy) × Serves contended.0 t × (t.callers 1 ≡ idle)
Reach-can_return_example = Reach-can_return contended.0 contended.1 (λ e. cc e) 1
