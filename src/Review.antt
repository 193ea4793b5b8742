-- ===== src/Review.antt =====
-- The review of submissions, data_manager/api/views.py: the stage that a reviewer sends, the shared
-- transition, and the handlers that create and update static submissions.
pub mod Answers
pub mod StageValue
pub mod Transition
pub mod Submissions
pub mod Static
pub mod Stages
mod Examples
