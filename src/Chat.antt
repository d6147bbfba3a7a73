-- ===== src/Chat.antt =====
-- Conversations, their members and polls: src/modules/chat.
pub mod Model
pub mod Settings
pub mod Access
pub mod Admission
pub mod Membership
pub mod Poll
pub mod Group
pub mod Utility
pub mod Messages
mod Tests
