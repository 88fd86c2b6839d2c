-- ===== src/Execution.antt =====
-- internal/domain/execution: plans and their execution.
pub mod Plan
pub mod Planner
pub mod Executor
pub mod Pipeline
mod Examples
