-- ===== src/Core.antt =====
-- src/runtime/core: what the managers and executors share.
pub mod Lifecycle
pub mod Filter
pub mod Rules
pub mod Backends
pub mod Runtime
pub mod Modules
mod Examples
mod ModulesExamples
