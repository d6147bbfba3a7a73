-- ===== src/Chat/Group.antt =====
-- Groups: how they are made, who owns them, and who comes in and goes.
pub mod Ownership
pub mod Leaving
pub mod Transfer
pub mod Owned
pub mod Keeping
pub mod Parting
pub mod Roster
pub mod Barring
pub mod Joining
pub mod Adding
pub mod Dissolving
pub mod Counted
pub mod Rewriting
pub mod Rosters
pub mod Barrings
pub mod Joins
pub mod Handing
pub mod Departing
pub mod Writing
pub mod Additions
pub mod Reach
pub mod Expelled
pub mod Effects
pub mod Unbarring
pub mod Size
pub mod Approving
pub mod Dissolved
pub mod Founding
pub mod Info
pub mod Links
pub mod Founded
pub mod Settled
mod Tests
mod MemberTests
