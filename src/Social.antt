-- ===== src/Social.antt =====
-- Friend requests, friendships and blocks: src/modules/friend-requests, src/modules/friendships and
-- src/modules/blocks, on the tables that the three share.
pub mod Model
pub mod Tables
pub mod Requests
pub mod Blocks
pub mod Guards
pub mod Invariant
pub mod Reach
pub mod Outcomes
pub mod Accepting
mod Tests
