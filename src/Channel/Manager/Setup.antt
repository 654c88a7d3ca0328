-- ===== src/Channel/Manager/Setup.antt =====
-- channel_backend_manager.cc: the life cycle, the setters, and the registration of subscribers and
-- publish types. An exception leaves the state reached so far.
use aim_rt.Prelude.{
  ◌+◌, ◌%◌, true, false, List, [], ◌∷◌, ◌++◌, Option, none, some, String, string_eq, if◌then◌else◌,
}
use aim_rt.Prelude.Map.{Map, find}
use aim_rt.Core.Lifecycle.{
  init, start, shutdown, Outcome, done, thrown, Reply, returned, raised, is_pre_init, is_init,
  is_shutdown,
}
use aim_rt.Core.Filter.{
  FilterManager, invoke, get_filter_collector, create_filter_collector_if_not_exist,
}
use aim_rt.Core.Rules.{Rules, get_filter_rules, get_backends_by_rules}
use aim_rt.Core.Backends.{ask_all, tell_all}
use aim_rt.Channel.Registry.{SubscribeWrapper, ChannelRegistry, subscribe}
use aim_rt.Channel.Manager.{
  MsgWrapper, Callback, BackendApi, Env, Sys, SubscribeProxyInfo, ChannelBackendManager, u64_mod,
}

module _ {B P W : Type 0} (env : Env) (api : BackendApi B P W) where
  unfoldable pub initialize : Sys B P W → Outcome (Sys B P W)
  initialize (m, w) =
      let s : Sys B P W = (record m { state = init }, w) in
      if is_pre_init m.state then done s else thrown s

  unfoldable pub start_backends : Sys B P W → Outcome (Sys B P W)
  unfolding tell_all
  start_backends (m, w) =
      let m' : ChannelBackendManager B P W = record m { state = start } in
      if is_init m.state
      then done (m', tell_all api.start m.channel_backend_index_vec w)
      else thrown (m', w)

  unfoldable pub shutdown_backends : Sys B P W → Sys B P W
  unfolding tell_all
  shutdown_backends (m, w) =
      if is_shutdown m.state
      then (m, w)
      else (record m { state = shutdown }, tell_all api.shutdown m.channel_backend_index_vec w)

  -- The setters: only before `Initialize`.
  unfoldable pub configure :
      (ChannelBackendManager B P W → ChannelBackendManager B P W) → Sys B P W → Outcome (Sys B P W)
  configure change (m, w) = if is_pre_init m.state then done (change m, w) else thrown (m, w)

  unfoldable pub set_channel_registry :
      ChannelRegistry (Callback P W) → Sys B P W → Outcome (Sys B P W)
  unfolding configure
  set_channel_registry r = configure (λ m. record m { registry = r })

  unfoldable pub set_publish_filter_manager :
      FilterManager (MsgWrapper P) W → Sys B P W → Outcome (Sys B P W)
  unfolding configure
  set_publish_filter_manager f = configure (λ m. record m { publish_filter_manager = f })

  unfoldable pub set_subscribe_filter_manager :
      FilterManager (MsgWrapper P) W → Sys B P W → Outcome (Sys B P W)
  unfolding configure
  set_subscribe_filter_manager f = configure (λ m. record m { subscribe_filter_manager = f })

  unfoldable pub set_publish_filters_rules : Rules → Sys B P W → Outcome (Sys B P W)
  unfolding configure
  set_publish_filters_rules rules = configure (λ m. record m { publish_filters_rules = rules })

  unfoldable pub set_subscribe_filters_rules : Rules → Sys B P W → Outcome (Sys B P W)
  unfolding configure
  set_subscribe_filters_rules rules = configure (λ m. record m { subscribe_filters_rules = rules })

  unfoldable pub set_pub_topics_backends_rules : Rules → Sys B P W → Outcome (Sys B P W)
  unfolding configure
  set_pub_topics_backends_rules rules =
      configure (λ m. record m { pub_topics_backends_rules = rules })

  unfoldable pub set_sub_topics_backends_rules : Rules → Sys B P W → Outcome (Sys B P W)
  unfolding configure
  set_sub_topics_backends_rules rules =
      configure (λ m. record m { sub_topics_backends_rules = rules })

  unfoldable pub register_channel_backend : B → Sys B P W → Outcome (Sys B P W)
  unfolding configure
  register_channel_backend b =
      configure
        (λ m. record m { channel_backend_index_vec = m.channel_backend_index_vec ++ b ∷ [] })

  abbrev pub backends_for : String → Rules → ChannelBackendManager B P W → List B
  backends_for topic rules m =
      get_backends_by_rules api.name env.regex_match m.channel_backend_index_vec topic rules

  -- The index entry of a topic: made on first use.
  unfoldable pub topic_backends :
      String
      → Rules
      → Map String (List B)
      → ChannelBackendManager B P W
      → Map String (List B) × List B
  topic_backends topic rules index m = elim (find topic index) [
    | none ↦ let bs = backends_for topic rules m in ((topic, bs) ∷ index, bs)
    | some bs ↦ (index, bs)
  ]

  -- From "register sub wrapper" on.
  unfoldable pub finish_subscribe :
      SubscribeWrapper (Callback P W) → ChannelBackendManager B P W → W → Reply (Sys B P W)
  unfolding topic_backends ask_all
  finish_subscribe wrapper m w =
      let (r, fresh) = subscribe wrapper m.registry in
      let m' : ChannelBackendManager B P W = record m { registry = r } in
      let (index, bs) =
        topic_backends wrapper.info.topic_name m.sub_topics_backends_rules
          m.sub_topics_backend_index_map m' in
      let (w', ret) = ask_all (λ b. api.subscribe b wrapper) bs w true in
      if fresh
      then returned (record m' { sub_topics_backend_index_map = index }, w') ret
      else returned (m', w) false

  -- `Subscribe(SubscribeWrapper&&)` behind its test of the state; `Subscribe` of the proxy ends
  -- the same way.
  unfoldable pub subscribe_with :
      SubscribeWrapper (Callback P W) → ChannelBackendManager B P W → W → Reply (Sys B P W)
  unfolding finish_subscribe
  subscribe_with wrapper m w =
      let topic = wrapper.info.topic_name in
      elim (create_filter_collector_if_not_exist topic
        (get_filter_rules env.regex_match topic m.subscribe_filters_rules)
        m.subscribe_filter_manager) [
          | thrown f ↦ raised (record m { subscribe_filter_manager = f }, w)
          | done f ↦
              finish_subscribe
                (record wrapper {
                  callback = invoke (get_filter_collector topic f) wrapper.callback;
                })
                (record m { subscribe_filter_manager = f }) w
        ]

  unfoldable pub subscribe_framework :
      SubscribeWrapper (Callback P W) → Sys B P W → Reply (Sys B P W)
  unfolding subscribe_with
  subscribe_framework wrapper (m, w) =
      if is_init m.state then subscribe_with wrapper m w else returned (m, w) false

  -- `check_msg` is `CheckMsg` of channel_backend_tools.h, which may throw: then the subscriber is
  -- not called.
  unfoldable pub guarded : (MsgWrapper P → Option (MsgWrapper P)) → Callback P W → Callback P W
  guarded check_msg sub_func msg w = elim (check_msg msg) [ none ↦ w | some msg' ↦ sub_func msg' w ]

  unfoldable pub subscribe_proxy :
      (MsgWrapper P → Option (MsgWrapper P))
      → SubscribeProxyInfo P W
      → Sys B P W
      → Reply (Sys B P W)
  unfolding subscribe_with guarded
  subscribe_proxy check_msg info (m, w) =
      let refused : Reply (Sys B P W) = returned (m, w) false in
      if is_init m.state
      then elim info.msg_type_support [
        | none ↦ refused
        | some msg_type ↦ elim info.callback [
          | none ↦ refused
          | some sub_func ↦
              let index = (m.sub_topic_index + 1) % u64_mod in
              subscribe_with
                (record {
                  info = record {
                    msg_type = msg_type;
                    topic_name = info.topic_name;
                    pkg_path = info.pkg_path;
                    module_name = info.module_name;
                    index = index;
                  };
                  require_cache_serialization_types = [];
                  callback = guarded check_msg sub_func;
                })
                (record m { sub_topic_index = index }) w
        ]
      ]
      else refused
