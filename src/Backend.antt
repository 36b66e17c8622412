-- ===== src/Backend.antt =====
-- agent/backend: the chat-session store and its HTTP handlers.
pub mod Clock
pub mod Keys
pub mod Records
pub mod Codec
pub mod Bolt
pub mod Opening
pub mod Memory
pub mod Store
pub mod Handlers
mod Tests
