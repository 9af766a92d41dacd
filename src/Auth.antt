-- ===== src/Auth.antt =====
-- The external logins of webrtc-server/pkg/handler: by GitHub and by Kioubit.
pub mod Nonces
pub mod Retry
pub mod Github
pub mod Kioubit
pub mod Accounts
pub mod Arrival
pub mod Bound
pub mod Verify
