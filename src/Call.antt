-- ===== src/Call.antt =====
-- Calls of version 2: src/modules/call.
pub mod Model
pub mod Service
pub mod Create
pub mod Moves
pub mod Ends
pub mod Invariant
pub mod Release
pub mod Sound
pub mod Preservation
pub mod Lifecycle
pub mod Joining
pub mod Logging
pub mod Creation
pub mod Registration
pub mod Reach
pub mod Outcomes
pub mod Frames
pub mod Endings
pub mod Opening
pub mod Invitees
mod Tests
