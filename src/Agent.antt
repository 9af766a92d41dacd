-- ===== src/Agent.antt =====
-- webrtc-agents: the programs that join a chat as bots.
pub mod Patch
pub mod Sdp
pub mod Signalling
pub mod MsgsStore
pub mod Ogg
pub mod Track
pub mod Duplicate
pub mod Bots
pub mod TrackBot
pub mod ClockBot
pub mod Runner
pub mod Dialer
pub mod Reconnect
pub mod Main
pub mod ChatBot
pub mod OpenRouter
