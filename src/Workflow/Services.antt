-- ===== src/Workflow/Services.antt =====
-- app/services: what the API does with executions, workflows and schedules, over rows in lists. A
-- write reaches the database with the session's commit; a task is sent to the queue at once.
mod Tables
pub mod Executions
pub mod Workflows
pub mod Schedules
pub use Tables.*
