-- ===== src/Channel/Manager.antt =====
-- src/runtime/core/channel/channel_backend_manager.{h,cc} with the interface of channel_backend_base.h.
-- `B` are the backends, `P` the messages, and `W` is what backends, filters and callbacks change.
-- When a subscriber's release callback runs (the last reference to it goes away) is not modelled, and a
-- context is a value that is handed on.
pub mod Setup
pub mod Invariant
pub mod Publishing
pub mod Delivery
pub mod Numbering
use aim_rt.Prelude.{
  ℕ, ◌+◌, ◌%◌, ◌^◌, Bool, true, false, not, ◌&&◌, ◌||◌, List, [], ◌∷◌, ◌++◌, map, Option, none,
  some, String, string_eq, if◌then◌else◌,
}
use aim_rt.Prelude.Map.{Map, find, emplace, assign}
use aim_rt.Core.Lifecycle.{
  State, pre_init, init, start, shutdown, Outcome, done, thrown, Reply, returned, raised,
  is_pre_init, is_init, is_start, is_shutdown,
}
use aim_rt.Core.Filter.{
  FilterManager, invoke, get_filter_collector, create_filter_collector_if_not_exist, empty_manager,
}
use aim_rt.Core.Rules.{Rules, Regex, get_filter_rules, get_backends_by_rules}
use aim_rt.Channel.Registry.{
  TopicInfo, SubscribeWrapper, PublishTypeWrapper, ChannelRegistry, Key, key_of, subscribe,
  register_publish_type, get_publish_type_wrapper, empty_registry,
}

pub data ContextType : Type 0 where
  publisher subscriber : ContextType

-- src/interface/aimrt_module_cpp_interface/channel/channel_context.h, as far as the manager uses it.
pub record Context : Type 0 where
  pub type : ContextType
  pub used : Bool
  pub meta : Map String String

pub record MsgWrapper (P : Type 0) : Type 0 where
  pub info : TopicInfo
  pub msg_ptr : Option P
  pub ctx : Context

abbrev pub Callback : Type 0 → Type 0 → Type 0
Callback P W = MsgWrapper P → W → W

pub record BackendApi (B P W : Type 0) : Type 0 where
  pub name : B → String
  pub start : B → W → W
  pub shutdown : B → W → W
  pub register_publish_type : B → PublishTypeWrapper → W → W × Bool
  pub subscribe : B → SubscribeWrapper (Callback P W) → W → W × Bool
  pub publish : B → MsgWrapper P → W → W

-- The standard library: regular expressions, and decimal text of a number.
pub record Env : Type 0 where
  pub regex_match : Regex
  pub to_string : ℕ → String

pub record SubscribeProxyInfo (P W : Type 0) : Type 0 where
  pub pkg_path : String
  pub module_name : String
  pub topic_name : String
  -- The type support is read for its `TypeName` only.
  pub msg_type_support : Option String
  pub callback : Option (Callback P W)

pub record RegisterPublishTypeProxyInfo : Type 0 where
  pub pkg_path : String
  pub module_name : String
  pub topic_name : String
  pub msg_type_support : Option String

pub record PublishProxyInfo (P : Type 0) : Type 0 where
  pub pkg_path : String
  pub module_name : String
  pub topic_name : String
  pub msg_type : String
  pub ctx : Context
  pub msg_ptr : Option P

pub record ChannelBackendManager (B P W : Type 0) : Type 0 where
  pub state : State
  pub sub_topic_index : ℕ
  pub pub_topic_index : ℕ
  pub registry : ChannelRegistry (Callback P W)
  pub publish_filters_rules : Rules
  pub subscribe_filters_rules : Rules
  pub publish_filter_manager : FilterManager (MsgWrapper P) W
  pub subscribe_filter_manager : FilterManager (MsgWrapper P) W
  pub channel_backend_index_vec : List B
  pub pub_topics_backends_rules : Rules
  pub sub_topics_backends_rules : Rules
  pub pub_topics_backend_index_map : Map String (List B)
  pub sub_topics_backend_index_map : Map String (List B)
  pub pub_topic_seq_map : Map String ℕ

-- The manager and the outside.
abbrev pub Sys : Type 0 → Type 0 → Type 0 → Type 0
Sys B P W = ChannelBackendManager B P W × W

abbrev pub u64_mod : ℕ
u64_mod = 2 ^ 64

abbrev pub u32_mod : ℕ
u32_mod = 2 ^ 32

abbrev pub seq_key : String
seq_key = "aimrt-pub_seq"

abbrev pub timestamp_key : String
timestamp_key = "aimrt-pub_ts"

abbrev pub key_at : String → String → String → String → Key
key_at msg_type topic pkg mod_name = record {
  msg_type = msg_type;
  topic_name = topic;
  pkg_path = pkg;
  module_name = mod_name;
}
