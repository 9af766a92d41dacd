-- ===== src/Web.antt =====
-- The middleware and the small handlers of webrtc-server: cookies, tokens, bots, profiles and the
-- counter.
pub mod Cookie
pub mod Token
pub mod Bots
pub mod Profile
pub mod Counter
