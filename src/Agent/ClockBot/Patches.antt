-- ===== src/Agent/ClockBot/Patches.antt =====
-- webrtc-agents/pkg/handlers/clockbot_dc_handler.go: the packets that a clock sends.
use webrtc_chat.Prelude.{
  ℕ, ◌%◌, ◌<◌, ◌≤◌, true, false, ◌≡◌, refl, ap, ◌∙◌, some, List, [], ◌∷◌, ◌++◌, done, arith, length,
  take, take-length, map, Bool,
}
use webrtc_chat.Agent.Patch.{replace, marshal, unmarshal_message_patch_order}
use webrtc_chat.Agent.Patch.Layout.{unmarshal-marshal}
use webrtc_chat.Agent.ClockBot.{Wake, stopped, ticked, clock_face, patch_of, send_clock_updates}

-- The times that the loop shows.
abbrev pub shown : List Wake → List (List ℕ)
shown [] = []
shown (stopped ∷ wakes) = []
shown (ticked now true ∷ wakes) = now ∷ shown wakes
shown (ticked now false ∷ wakes) = []

-- A time of RFC3339 has 25 bytes at most.
pub data IsTimes : List Wake → Type 0 where
  nil : IsTimes []
  stop : {wakes : List Wake} → IsTimes wakes → IsTimes (stopped ∷ wakes)
  tick :
      {now : List ℕ} {sent : Bool} {wakes : List Wake}
      → length now ≤ 25
      → IsTimes wakes
      → IsTimes (ticked now sent ∷ wakes)

patch_packet :
    (message_id now : List ℕ)
    → length message_id < 65536
    → length now ≤ 25
    → (packet : List ℕ) × (marshal (patch_of message_id now) ≡ done packet)
      × (unmarshal_message_patch_order packet ≡ some (patch_of message_id now))
patch_packet message_id now short time =
    let (packet, made, read) = unmarshal-marshal (patch_of message_id now) short in
    let value = clock_face ++ now in
    let fits : length value % 65536 ≡ length value = omega (arith, time) in
    (
      packet,
      made,
      read
          ∙ ap (λ v. some (record { message_id = message_id; kind = replace; value = v }))
              (ap (λ n. take n value) fits ∙ take-length value),
    )

-- For a message id of less than 65536 bytes, sendClockUpdates sends for each tick, until it is told
-- to stop or a Send fails, one packet, which the client reads as the order to replace that message by
-- the time of the tick.
pub send_clock_updates-shown :
    (message_id : List ℕ) (wakes : List Wake)
    → length message_id < 65536
    → IsTimes wakes
    → (packets : List (List ℕ)) × (send_clock_updates message_id wakes ≡ done packets)
      × (map unmarshal_message_patch_order packets
          ≡ map (λ now. some (patch_of message_id now)) (shown wakes))
unfolding send_clock_updates
send_clock_updates-shown message_id [] short times = ([], refl, refl)
send_clock_updates-shown message_id (stopped ∷ wakes) short times = ([], refl, refl)
send_clock_updates-shown message_id (ticked now true ∷ wakes) short (tick time times) =
    let (packet, made, read) = patch_packet message_id now short time in
    let (packets, ran, shows) = send_clock_updates-shown message_id wakes short times in
    (packet ∷ packets, rw (made, ran) refl, rw (read, shows) refl)
send_clock_updates-shown message_id (ticked now false ∷ wakes) short (tick time times) =
    let (packet, made, read) = patch_packet message_id now short time in ([], rw made refl, refl)
