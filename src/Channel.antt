-- ===== src/Channel.antt =====
-- src/runtime/core/channel.
pub mod Registry
pub mod Manager
pub mod Tools
pub mod Local
mod LocalExamples
mod Examples
