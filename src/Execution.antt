-- ===== src/Execution.antt =====
-- src/execution: activities and the platform backend that keeps them, transitions, the queue of
-- exogenous events, and the histories that they produce together.
pub mod Activity
pub mod Backend
pub mod Context
pub mod Transition
pub mod Controller
pub mod Run
pub mod Loop
