-- ===== src/Privacy.antt =====
-- Who may see what of a user: src/modules/user/usecase/relationship-privacy-policy-v2.ts.
pub mod Model
pub mod Policy
pub mod Profile
pub mod Blocks
pub mod Fields
pub mod Presence
mod Tests
