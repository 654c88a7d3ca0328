-- ===== src/Channel/Manager/Publishing.antt =====
-- channel_backend_manager.cc: publish types, `Publish`, and what the managers report.
use aim_rt.Prelude.{
  ℕ, ◌+◌, ◌%◌, Bool, true, false, not, ◌||◌, List, [], map, none, some, String, string_eq,
  if◌then◌else◌,
}
use aim_rt.Prelude.Map.{Map, find, emplace, assign}
use aim_rt.Core.Lifecycle.{done, thrown, Reply, returned, raised, is_init, is_start}
use aim_rt.Core.Filter.{invoke, get_filter_collector, create_filter_collector_if_not_exist}
use aim_rt.Core.Rules.{get_filter_rules}
use aim_rt.Channel.Registry.{PublishTypeWrapper, register_publish_type, get_publish_type_wrapper}
use aim_rt.Channel.Manager.{
  MsgWrapper, BackendApi, Env, Sys, RegisterPublishTypeProxyInfo, PublishProxyInfo, Context,
  ContextType, publisher, subscriber, ChannelBackendManager, u64_mod, u32_mod, seq_key,
  timestamp_key, key_at,
}
use aim_rt.Channel.Manager.Setup.{topic_backends}
use aim_rt.Core.Backends.{ask_all, tell_all}

abbrev pub is_publisher : ContextType → Bool
is_publisher publisher = true
is_publisher subscriber = false

-- What a publish leaves: the manager and the outside, and the caller's context.
pub record Published (B P W : Type 0) : Type 0 where
  pub sys : Sys B P W
  pub ctx : Context

module _ {B P W : Type 0} (env : Env) (api : BackendApi B P W) where
  unfoldable pub finish_register :
      PublishTypeWrapper → ChannelBackendManager B P W → W → Reply (Sys B P W)
  unfolding topic_backends ask_all
  finish_register wrapper m w =
      let (r, fresh) = register_publish_type wrapper m.registry in
      let m' : ChannelBackendManager B P W = record m { registry = r } in
      let (index, bs) =
        topic_backends env api wrapper.info.topic_name m.pub_topics_backends_rules
          m.pub_topics_backend_index_map m' in
      let (w', ret) = ask_all (λ b. api.register_publish_type b wrapper) bs w true in
      if fresh
      then returned (record m' { pub_topics_backend_index_map = index }, w') ret
      else returned (m', w) false

  -- `RegisterPublishType(PublishTypeWrapper&&)` behind its test of the state.
  unfoldable pub register_with :
      PublishTypeWrapper → ChannelBackendManager B P W → W → Reply (Sys B P W)
  unfolding finish_register
  register_with wrapper m w =
      let topic = wrapper.info.topic_name in
      let seqs = (emplace topic 0 m.pub_topic_seq_map).0 in
      elim (create_filter_collector_if_not_exist topic
        (get_filter_rules env.regex_match topic m.publish_filters_rules) m.publish_filter_manager) [
          | thrown f ↦ raised (record m { pub_topic_seq_map = seqs; publish_filter_manager = f }, w)
          | done f ↦
              finish_register wrapper
                (record m { pub_topic_seq_map = seqs; publish_filter_manager = f }) w
        ]

  unfoldable pub register_publish_framework : PublishTypeWrapper → Sys B P W → Reply (Sys B P W)
  unfolding register_with
  register_publish_framework wrapper (m, w) =
      if is_init m.state then register_with wrapper m w else returned (m, w) false

  unfoldable pub register_publish_proxy :
      RegisterPublishTypeProxyInfo → Sys B P W → Reply (Sys B P W)
  unfolding register_with
  register_publish_proxy info (m, w) =
      let refused : Reply (Sys B P W) = returned (m, w) false in
      if is_init m.state
      then elim info.msg_type_support [
        | none ↦ refused
        | some msg_type ↦
            let index = (m.pub_topic_index + 1) % u64_mod in
            register_with
              (record {
                info = record {
                  msg_type = msg_type;
                  topic_name = info.topic_name;
                  pkg_path = info.pkg_path;
                  module_name = info.module_name;
                  index = index;
                };
                require_cache_serialization_types = [];
              })
              (record m { pub_topic_index = index }) w
      ]
      else refused

  -- The handle at the end of the filter chain.
  unfoldable pub publish_to_backends : Map String (List B) → MsgWrapper P → W → W
  unfolding tell_all
  publish_to_backends index msg w = elim (find msg.info.topic_name index) [
    | none ↦ w
    | some bs ↦ tell_all (λ b. api.publish b msg) bs w
  ]

  -- The next number of the topic, if the topic has one.
  unfoldable pub take_seq :
      String → Map String ℕ → Map String String → Map String ℕ × Map String String
  take_seq topic seqs meta = elim (find topic seqs) [
    | none ↦ (seqs, meta)
    | some n ↦
        let seq = (n + 1) % u32_mod in
        (assign topic seq seqs, assign seq_key (env.to_string seq) meta)
  ]

  -- Both `Publish` from the test of the context on, for the topic that the caller names; `now` is
  -- the timestamp of the call.
  unfoldable pub publish_with :
      String → ℕ → MsgWrapper P → ChannelBackendManager B P W → W → Published B P W
  unfolding publish_to_backends take_seq
  publish_with topic now msg m w =
      let (seqs, meta) = take_seq topic m.pub_topic_seq_map msg.ctx.meta in
      let ctx : Context = record msg.ctx {
        used = true;
        meta = assign timestamp_key (env.to_string now) meta;
      } in
      let w' =
        invoke (get_filter_collector topic m.publish_filter_manager)
          (publish_to_backends m.pub_topics_backend_index_map) (record msg { ctx = ctx }) w in
      if not (is_publisher msg.ctx.type) || msg.ctx.used
      then record { sys = (m, w); ctx = msg.ctx }
      else record { sys = (record m { pub_topic_seq_map = seqs }, w'); ctx = ctx }

  unfoldable pub publish_framework : ℕ → MsgWrapper P → Sys B P W → Published B P W
  unfolding publish_with
  publish_framework now msg (m, w) =
      if is_start m.state
      then publish_with msg.info.topic_name now msg m w
      else record { sys = (m, w); ctx = msg.ctx }

  unfoldable pub publish_proxy : ℕ → PublishProxyInfo P → Sys B P W → Published B P W
  unfolding publish_with
  publish_proxy now info (m, w) =
      let refused : Published B P W = record { sys = (m, w); ctx = info.ctx } in
      if is_start m.state
      then elim (get_publish_type_wrapper
          (key_at info.msg_type info.topic_name info.pkg_path info.module_name) m.registry) [
            | none ↦ refused
            | some t ↦
                publish_with info.topic_name now
                  (record { info = t.info; msg_ptr = info.msg_ptr; ctx = info.ctx }) m w
          ]
      else refused

  unfoldable pub get_pub_topic_backend_info : ChannelBackendManager B P W → Map String (List String)
  get_pub_topic_backend_info m = map (λ e. (e.0, map api.name e.1)) m.pub_topics_backend_index_map

  unfoldable pub get_sub_topic_backend_info : ChannelBackendManager B P W → Map String (List String)
  get_sub_topic_backend_info m = map (λ e. (e.0, map api.name e.1)) m.sub_topics_backend_index_map
