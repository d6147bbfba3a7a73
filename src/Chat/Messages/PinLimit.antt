-- ===== src/Chat/Messages/PinLimit.antt =====
-- src/modules/chat/usecase/pin-message.ts: how many messages of a conversation are pinned.
