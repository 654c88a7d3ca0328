-- ===== src/Executor.antt =====
-- src/runtime/core/executor.
pub mod TimeWheel
pub mod GuardThread
pub mod Manager
mod GuardExamples
mod ManagerExamples
