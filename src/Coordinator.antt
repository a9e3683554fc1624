-- ===== src/Coordinator.antt =====
-- src/coordinator: the boards of a coordinator and what goes over its connections.
pub mod BinaryFrame
pub mod Board
pub mod FacadeAccess
pub mod MemberRate
pub mod Members
pub mod Participants
pub mod Routing
pub mod Session
