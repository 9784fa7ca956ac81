-- ===== src/Workflow.antt =====
-- The workflow orchestration engine (workflow-orchestration-engine/app).
pub mod StateMachine
pub mod Schemas
pub mod Models
pub mod Retry
pub mod Tasks
pub mod Executor
pub mod Graphs
pub mod Dag
pub mod Handlers
pub mod Routes
pub mod Sockets
pub mod Services
pub mod Scheduler
pub mod History
mod Examples
