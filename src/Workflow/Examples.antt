-- ===== src/Workflow/Examples.antt =====
-- The theorems about the engine at concrete inputs, and tests of the definitions.
mod Fixtures
mod Engine
mod Graph
mod Runs
mod Calls
mod Passes
mod Lives
pub mod Listeners
pub mod Replies
pub mod Handled
