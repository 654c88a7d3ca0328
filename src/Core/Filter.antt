-- ===== src/Core/Filter.antt =====
-- src/runtime/core/channel/channel_framework_async_filter.h (rpc/rpc_framework_async_filter.h is the
-- same text over another message type). A filter gets the message and the rest of the chain; what
-- handles do to the outside is a change of a world `W`. A handle runs when it is called.
mod Defs
pub mod Chain
pub use Defs.{FilterManager, Filter, Handle, empty_manager}
unfoldable pub use Defs.{
  default_filter, register_in_collector, invoke, register_filter, get_all_filters_name,
  create_filter_collector, create_filter_collector_if_not_exist, collect, get_filter_collector,
  get_filter_name_vec, clear,
}
