-- ===== src/Examples.antt =====
-- Concrete runs of the modelled code, and each result applied to one.
pub mod Registry
pub mod Maps
pub mod Users
pub mod Messages
pub mod Models
pub mod Agents
pub mod Logins
pub mod Accounts
pub mod Stores
pub mod Tracks
pub mod Bots
pub mod Profiles
pub mod Connections
pub mod Chats
pub mod Services
pub mod Proxies
pub mod Runners
pub mod Starts
pub mod Visits
