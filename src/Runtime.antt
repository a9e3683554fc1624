-- ===== src/Runtime.antt =====
-- runtime.ts: the runs that calls belong to, the pipeline of a runtime, and the runtimes of a server.
pub mod Context
pub mod Pipeline
pub mod Registry
