-- ===== src/Rpc.antt =====
-- src/runtime/core/rpc, with the contexts of calls and the table of pending calls.
pub mod Registry
pub mod Context
pub mod ClientTool
pub mod Manager
pub mod Local
mod Examples
mod LocalExamples
