-- ===== src/Tests.antt =====
-- The theorems at concrete inputs.
pub mod Conversations
pub mod Coordinator
pub mod Facade
pub mod Gather
pub mod Hold
pub mod Participants
pub mod Queue
pub mod Runtime
pub mod Server
pub mod Session
