-- ===== src/Workflow/Executor.antt =====
-- app/engine/executor.py: `WorkflowExecutor`, one execution at a time.
mod State
mod Attempts
mod Finish
mod Run
pub mod Verdicts
pub mod Retries
pub mod Loop
pub mod Cancel
pub mod Outputs
pub mod Outcomes
pub use State.*
unfoldable pub use Attempts.*
unfoldable pub use Finish.*
unfoldable pub use Run.*
