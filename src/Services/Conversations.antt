-- ===== src/Services/Conversations.antt =====
-- services/conversations.ts.
pub mod Values
pub mod Rows
pub mod Settings
pub mod Passes
pub mod Filing
pub mod Workflow
pub mod Processing
pub mod Statements
pub mod Integrity
pub mod Staying
pub mod Replies
pub mod States
pub mod Polling
pub mod Isolation
