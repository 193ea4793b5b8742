-- ===== src/Workflow.antt =====
-- The workflow of a static submission as a whole: creation, updates by owners and reviewers, the
-- verdicts of validation and the action of the admin site, in any order.
pub mod Advance
pub mod Steps
pub mod Safety
pub mod Overlap
mod Examples
pub use Steps.{Step, Reach}
