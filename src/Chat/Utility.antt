-- ===== src/Chat/Utility.antt =====
-- Utilities of a group: reminders and notes, and the worker that serves reminders and polls.
pub mod Activity
pub mod Schedule
pub mod Reminders
pub mod Notes
pub mod Worker
pub mod Rounds
pub mod Permission
mod Tests
