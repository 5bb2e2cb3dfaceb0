-- ===== src/Chat.antt =====
-- The chat service (src/impls/chat).
pub mod Types
pub mod Backend
pub mod Checks
pub mod Ordering
pub mod Queries
pub mod Updates
pub mod Listings
pub mod Streams
pub mod Server
pub mod Moderation
pub mod Permissions
pub mod Guilds
pub mod Channels
pub mod Messages
pub mod Attached
pub mod Contents
pub mod SendMessage
