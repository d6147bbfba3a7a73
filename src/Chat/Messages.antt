-- ===== src/Chat/Messages.antt =====
-- What is done to a message: src/modules/chat/usecase.
pub mod Actions
pub mod Pins
pub mod Revoked
pub mod PinLimit
mod Tests
