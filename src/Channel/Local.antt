-- ===== src/Channel/Local.antt =====
-- src/runtime/core/channel/local_channel_backend.{h,cc}. `E` are the executors. The context of the
-- subscribers of a package is a value that each of them gets. The options are parsed by the YAML
-- library and come as a value. The set of module names is a list, and an order of the index maps is
-- taken as given.
pub mod Publishing
pub mod Targets
pub mod Index
pub mod Hearing
pub mod Contexts
pub mod Delivery
use aim_rt.Prelude.{
  Bool, true, false, not, List, [], ◌∷◌, ◌++◌, map, Option, none, some, String, string_eq, ◌==◌,
  if◌then◌else◌,
}
use aim_rt.Prelude.Map.{Map, find, find_or, assign}
use aim_rt.Core.Lifecycle.{
  State, pre_init, init, start, shutdown, Outcome, done, thrown, is_pre_init, is_init, is_start,
  is_shutdown,
}
use aim_rt.Channel.Registry.{
  TopicInfo, SubscribeWrapper, PublishTypeWrapper, ChannelRegistry, MtpKey,
  get_module_subscribe_wrapper_map,
}
use aim_rt.Channel.Manager.{Context, ContextType, subscriber}
use aim_rt.Channel.Tools.{
  TypeSupport, default_serialization_type, MsgWrapper, Callback, check_msg,
  serialize_msg_with_cache, Serialized, cached, failed, is_among,
}

pub record Options : Type 0 where
  pub subscriber_use_inline_executor : Bool
  pub subscriber_executor : String

abbrev pub default_options : Options
default_options = record { subscriber_use_inline_executor = true; subscriber_executor = "" }

-- msg_type, topic, lib_path, module_name
abbrev pub SubscribeIndexMap : Type 0
SubscribeIndexMap = Map String (Map String (Map String (List String)))

-- An executor function that finds no executor gives an empty reference, `none`.
pub record LocalChannelBackend (E : Type 0) : Type 0 where
  pub options : Options
  pub state : State
  pub get_executor_func : Option (String → Option E)
  pub subscribe_executor_ref : Option E
  pub subscribe_index_map : SubscribeIndexMap

abbrev pub local_name : String
local_name = "local"

abbrev pub backend_key : String
backend_key = "aimrt-backend"

abbrev pub serialization_type_key : String
serialization_type_key = "aimrt-serialization_type"

unfoldable pub get_meta_value : String → Context → String
get_meta_value key ctx = find_or "" key ctx.meta

unfoldable pub set_meta_value : String → String → Context → Context
set_meta_value key val ctx = record ctx { meta = assign key val ctx.meta }

-- `set.emplace(name)`
abbrev pub emplace_name : String → List String → List String
emplace_name n ns = if is_among n ns then ns else n ∷ ns

-- `map[msg_type][topic][pkg].emplace(module)`
unfoldable pub index_with : TopicInfo → SubscribeIndexMap → SubscribeIndexMap
index_with i m =
    let topics = find_or [] i.msg_type m in
    let pkgs = find_or [] i.topic_name topics in
    let modules = find_or [] i.pkg_path pkgs in
    assign i.msg_type
      (assign i.topic_name (assign i.pkg_path (emplace_name i.module_name modules) pkgs) topics) m

module _ {E : Type 0} where
  abbrev pub new_backend : LocalChannelBackend E
  new_backend = record {
    options = default_options;
    state = pre_init;
    get_executor_func = none;
    subscribe_executor_ref = none;
    subscribe_index_map = [];
  }

  unfoldable pub bind_executor : LocalChannelBackend E → Outcome (LocalChannelBackend E)
  bind_executor b = elim b.get_executor_func [
    | none ↦ thrown b
    | some f ↦
        let found = f b.options.subscriber_executor in
        let b' = record b { subscribe_executor_ref = found } in
        elim found [ none ↦ thrown b' | some e ↦ done b' ]
  ]

  -- The state is exchanged before it is checked.
  unfoldable pub initialize :
      Option Options → LocalChannelBackend E → Outcome (LocalChannelBackend E)
  unfolding bind_executor
  initialize node b =
      let b' = record b { state = init; options = elim node [ none ↦ b.options | some o ↦ o ] } in
      let bound = bind_executor b' in
      if is_pre_init b.state
      then (if b'.options.subscriber_use_inline_executor then done b' else bound)
      else thrown (record b { state = init })

  unfoldable pub start_backend : LocalChannelBackend E → Outcome (LocalChannelBackend E)
  start_backend b =
      let b' = record b { state = start } in if is_init b.state then done b' else thrown b'

  unfoldable pub shutdown_backend : LocalChannelBackend E → LocalChannelBackend E
  shutdown_backend b =
      if is_shutdown b.state
      then b
      else record b { state = shutdown; subscribe_index_map = []; get_executor_func = none }

  unfoldable pub register_get_executor_func :
      (String → Option E) → LocalChannelBackend E → Outcome (LocalChannelBackend E)
  register_get_executor_func f b =
      if is_pre_init b.state then done (record b { get_executor_func = some f }) else thrown b

  unfoldable pub register_publish_type : PublishTypeWrapper → LocalChannelBackend E → Bool
  register_publish_type w b = is_init b.state

  unfoldable pub subscribe_local :
      {C : Type 0} → SubscribeWrapper C → LocalChannelBackend E → LocalChannelBackend E × Bool
  unfolding index_with
  subscribe_local w b =
      if is_init b.state
      then (record b { subscribe_index_map = index_with w.info b.subscribe_index_map }, true)
      else (b, false)

-- `for (item : keys) ctx->SetMetaValue(item, from.GetMetaValue(item))`
unfoldable pub copy_meta : List String → Context → Context → Context
unfolding get_meta_value set_meta_value
copy_meta [] from ctx = ctx
copy_meta (k ∷ ks) from ctx = copy_meta ks from (set_meta_value k (get_meta_value k from) ctx)

unfoldable pub get_meta_keys : Context → List String
get_meta_keys ctx = map (λ e. e.0) ctx.meta

-- The context of one package: what the publisher's says, and this backend's name.
unfoldable pub pkg_context : Context → Context
unfolding copy_meta get_meta_keys set_meta_value
pkg_context from =
    set_meta_value backend_key local_name
      (copy_meta (get_meta_keys from) from (record { type = subscriber; used = false; meta = [] }))

-- Where the subscribers of a message are looked for.
unfoldable pub pkgs_of : TopicInfo → SubscribeIndexMap → List String
pkgs_of i m = map (λ e. e.0) (find_or [] i.topic_name (find_or [] i.msg_type m))
