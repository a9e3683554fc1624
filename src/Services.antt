-- ===== src/Services.antt =====
-- The services a board is made of.
pub mod Conversations
pub mod Databases
pub mod Gather
pub mod Hold
pub mod Queue
pub mod Spread
