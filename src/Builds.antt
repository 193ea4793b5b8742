-- ===== src/Builds.antt =====
-- The graph builds of the journey planner: planner/services.py, planner/pipeline.py and
-- planner/tasks.py.
pub mod Rows
pub mod Queue
pub mod Watch
pub mod Tables
pub mod Steps
pub mod Exclusion
pub mod Exclusive
pub mod Timed
pub mod Unblocked
pub mod World
pub mod Candidates
pub mod Trials
pub mod Graphs
pub mod Serving
pub mod Activation
pub mod Pipeline
pub mod Frame
pub mod Safe
pub mod Collected
pub mod Built
pub mod Works
pub mod Restored
pub mod Ends
pub mod Rounds
pub mod Gives
pub mod Included
pub mod Recovery
pub mod Examples
