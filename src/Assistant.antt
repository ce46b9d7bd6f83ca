-- ===== src/Assistant.antt =====
-- apps/client/src/features/ai/adapters
pub mod Sse
pub mod Chat
