-- ===== src/Tests.antt =====
-- Concrete inputs: a tree and codecs that meet what the model asks of them, and the theorems at work on
-- small servers.
pub mod Encoding
pub mod Log
pub mod Sample
pub mod Accounts
mod Bytes
mod Limits
mod Orders
mod Members
mod Channels
mod Listings
mod Tables
mod Commands
pub mod Media
pub mod Pictures
mod Streams
mod Sending
mod Versions
pub mod Posting
mod Logins
mod Services
mod Peers
