-- ===== src/Util.antt =====
-- src/common/util.
pub mod UrlEncode
pub mod Buffer
pub mod Strings
pub mod BlockQueue
mod Examples
mod BufferExamples
mod StringsExamples
mod QueueExamples
mod TextsExamples
