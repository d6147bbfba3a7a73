-- ===== src/Chat/Poll.antt =====
-- Polls: who sees what of one, and votes.
pub mod View
pub mod Hiding
pub mod Ballot
pub mod Vote
pub mod Voters
pub mod Counting
pub mod Voting
pub mod Making
pub mod Managing
pub mod Closing
