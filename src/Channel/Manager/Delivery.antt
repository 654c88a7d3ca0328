-- ===== src/Channel/Manager/Delivery.antt =====
-- channel_backend_manager.cc: what a publish does, what a subscriber's callback runs, and which
-- states admit which call.
use aim_rt.Prelude.{
  ℕ, ◌+◌, ◌%◌, ◌≡◌, refl, Bool, true, false, not, ◌||◌, List, [], Option, none, some, String,
  string_eq, Bool-cases, inl, inr,
}
use aim_rt.Prelude.Map.{Map, find, assign, find_head}
use aim_rt.Core.Lifecycle.{done, returned, reached, is_init, is_start}
use aim_rt.Core.Filter.{
  FilterManager, get_filter_collector, invoke, default_filter, create_filter_collector_if_not_exist,
}
use aim_rt.Core.Filter.Chain.{
  chained, AllKnown, invoke-create_filter_collector, get_filter_collector-default,
}
use aim_rt.Core.Rules.{get_filter_rules}
use aim_rt.Channel.Registry.{
  key_eq, key_of, PublishTypeWrapper, SubscribeWrapper, get_publish_type_wrapper,
  get_subscribe_wrapper,
}
use aim_rt.Channel.Registry.Laws.{subscribe-new}
use aim_rt.Channel.Manager.{
  BackendApi, Env, Callback, MsgWrapper, Context, RegisterPublishTypeProxyInfo, SubscribeProxyInfo,
  PublishProxyInfo, ChannelBackendManager, u64_mod, u32_mod, key_at, seq_key, timestamp_key,
}
use aim_rt.Core.Backends.{tell_all}
use aim_rt.Channel.Manager.Setup.{
  subscribe_framework, subscribe_proxy, subscribe_with, finish_subscribe, guarded,
}
use aim_rt.Channel.Manager.Publishing.{
  publish_with, publish_framework, publish_proxy, publish_to_backends, take_seq,
  register_publish_framework, register_publish_proxy, is_publisher,
}

module _ {B P W : Type 0} (env : Env) (api : BackendApi B P W) where
  -- Registrations outside `Init` return false and change nothing; publishing outside `Start`
  -- changes nothing and leaves the caller's context unused.
  pub refused_by_state :
      (check_msg : MsgWrapper P → Option (MsgWrapper P)) (sub : SubscribeWrapper (Callback P W))
      (sub_info : SubscribeProxyInfo P W) (pub_type : PublishTypeWrapper)
      (pub_info : RegisterPublishTypeProxyInfo) (now : ℕ) (msg : MsgWrapper P)
      (info : PublishProxyInfo P) (m : ChannelBackendManager B P W) (w : W)
      → (is_init m.state ≡ false
          → (subscribe_framework env api sub (m, w) ≡ returned (m, w) false)
            × (subscribe_proxy env api check_msg sub_info (m, w) ≡ returned (m, w) false)
            × (register_publish_framework env api pub_type (m, w) ≡ returned (m, w) false)
            × (register_publish_proxy env api pub_info (m, w) ≡ returned (m, w) false))
        × (is_start m.state ≡ false
            → (publish_framework env api now msg (m, w) ≡ record { sys = (m, w); ctx = msg.ctx })
              × (publish_proxy env api now info (m, w) ≡ record { sys = (m, w); ctx = info.ctx }))
  unfolding subscribe_framework subscribe_proxy register_publish_framework register_publish_proxy
      publish_framework publish_proxy
  refused_by_state check_msg sub sub_info pub_type pub_info now msg info m w =
      (λ e. (rw e, rw e, rw e, rw e), λ e. (rw e, rw e))

  take_seq-some :
      (topic : String) (seqs : Map String ℕ) (meta : Map String String) (n : ℕ)
      → find topic seqs ≡ some n
      → take_seq env api topic seqs meta ≡ (
        assign topic ((n + 1) % u32_mod) seqs,
        assign seq_key (env.to_string ((n + 1) % u32_mod)) meta,
      )
  unfolding take_seq
  take_seq-some topic seqs meta n e = rw (e, take_seq)

  -- The context with its meta data, as the backends see it.
  abbrev pub stamped : ℕ → ℕ → Context → Context
  stamped now seq ctx = record ctx {
    used = true;
    meta = assign timestamp_key (env.to_string now) (assign seq_key (env.to_string seq) ctx.meta);
  }

  -- One publish with a context that is a publisher's and not used yet.
  pub publish_proxy-delivers :
      (now : ℕ) (info : PublishProxyInfo P) (t : PublishTypeWrapper) (bs : List B) (n : ℕ)
      (m : ChannelBackendManager B P W) (w : W)
      → is_start m.state ≡ true
      → get_publish_type_wrapper
          (key_at info.msg_type info.topic_name info.pkg_path info.module_name)
          m.registry
        ≡ some t
      → is_publisher info.ctx.type ≡ true
      → info.ctx.used ≡ false
      → find info.topic_name m.publish_filter_manager.filter_collector_map ≡ none
      → find t.info.topic_name m.pub_topics_backend_index_map ≡ some bs
      → find info.topic_name m.pub_topic_seq_map ≡ some n
      → let ctx = stamped now ((n + 1) % u32_mod) info.ctx in
        publish_proxy env api now info (m, w) ≡ record {
          sys = (
            record m {
              pub_topic_seq_map = assign info.topic_name ((n + 1) % u32_mod) m.pub_topic_seq_map;
            },
            tell_all
                (λ b. api.publish b (record { info = t.info; msg_ptr = info.msg_ptr; ctx = ctx }))
                bs
                w,
          );
          ctx = ctx;
        }
  unfolding publish_proxy publish_with invoke publish_to_backends
  publish_proxy-delivers now info t bs n m w e_state e_type e_pub e_used e_col e_bs e_n =
      rw (e_state, e_type, publish_proxy)
        (rw (e_pub, e_used, take_seq-some info.topic_name m.pub_topic_seq_map info.ctx.meta n e_n)
          (rw (get_filter_collector-default info.topic_name m.publish_filter_manager e_col)
            (unfold default_filter in rw (e_bs, publish_to_backends))))

  or_true : (b : Bool) → (b || true) ≡ true
  or_true true = refl
  or_true false = refl

  -- A running manager publishes with a context at most once: a second call with the context that
  -- the first one left changes nothing.
  pub publish_twice :
      (now later : ℕ) (msg : MsgWrapper P) (m : ChannelBackendManager B P W) (w : W)
      → is_start m.state ≡ true
      → let once = publish_framework env api now msg (m, w) in
        publish_framework env api later (record msg { ctx = once.ctx }) once.sys ≡ once
  unfolding publish_framework publish_with
  publish_twice now later msg m w e =
      elim (Bool-cases (not (is_publisher msg.ctx.type) || msg.ctx.used)) [
        | inl bad ↦ rw (e, bad) (rw (e, bad) refl)
        | inr good ↦ rw (e, good) (rw e (rw or_true refl))
      ]

  finish_subscribe-new :
      (wrapper : SubscribeWrapper (Callback P W)) (m : ChannelBackendManager B P W) (w : W)
      → find (key_of wrapper.info) m.registry.subscribe_wrapper_map ≡ none
      → get_subscribe_wrapper
          (key_of wrapper.info)
          (reached (finish_subscribe env api wrapper m w)).0.registry
        ≡ some wrapper
  unfolding finish_subscribe get_subscribe_wrapper
  finish_subscribe-new wrapper m w new =
      rw (subscribe-new wrapper m.registry new)
        (rw (find_head (key_of wrapper.info) wrapper m.registry.subscribe_wrapper_map))

  -- The wrapper that the registry gets: its callback runs the topic's collector.
  abbrev with_chain :
      SubscribeWrapper (Callback P W)
      → FilterManager (MsgWrapper P) W
      → SubscribeWrapper (Callback P W)
  with_chain wrapper f = record wrapper {
    callback = invoke (get_filter_collector wrapper.info.topic_name f) wrapper.callback;
  }

  subscribe_with-new :
      (wrapper : SubscribeWrapper (Callback P W)) (m : ChannelBackendManager B P W) (w : W)
      (f : FilterManager (MsgWrapper P) W)
      → create_filter_collector_if_not_exist wrapper.info.topic_name
          (get_filter_rules env.regex_match wrapper.info.topic_name m.subscribe_filters_rules)
          m.subscribe_filter_manager
        ≡ done f
      → get_subscribe_wrapper (key_of wrapper.info) m.registry ≡ none
      → get_subscribe_wrapper
          (key_of wrapper.info)
          (reached (subscribe_with env api wrapper m w)).0.registry
        ≡ some (with_chain wrapper f)
  unfolding subscribe_with
  subscribe_with-new wrapper m w f made new =
      rw (made, subscribe_with)
        (finish_subscribe-new (with_chain wrapper f) (record m { subscribe_filter_manager = f }) w
          (unfold get_subscribe_wrapper in new))

  -- A first subscription of a module to a topic, while the manager is in `Init`, with a callback
  -- and a type support, on a topic whose filters are all registered and not chained yet: the
  -- registry holds a callback that runs those filters, the last name outermost, around the check
  -- of the message and the module's function.
  pub subscribe_proxy-callback :
      (check_msg : MsgWrapper P → Option (MsgWrapper P)) (info : SubscribeProxyInfo P W)
      (msg_type : String) (sub_func : Callback P W) (m : ChannelBackendManager B P W) (w : W)
      → is_init m.state ≡ true
      → info.msg_type_support ≡ some msg_type
      → info.callback ≡ some sub_func
      → get_subscribe_wrapper
          (key_at msg_type info.topic_name info.pkg_path info.module_name)
          m.registry
        ≡ none
      → find info.topic_name m.subscribe_filter_manager.filter_collector_map ≡ none
      → let names = get_filter_rules env.regex_match info.topic_name m.subscribe_filters_rules in
        let filters = m.subscribe_filter_manager.filter_map in
        let key = key_at msg_type info.topic_name info.pkg_path info.module_name in
        AllKnown filters names
        → (made : SubscribeWrapper (Callback P W)) × (get_subscribe_wrapper key
              (reached (subscribe_proxy env api check_msg info (m, w))).0.registry
            ≡ some made)
          × ((msg : MsgWrapper P) (v : W)
              → made.callback msg v
                ≡ chained filters names (guarded env api check_msg sub_func) msg v)
  unfolding subscribe_proxy get_subscribe_wrapper
  subscribe_proxy-callback check_msg info msg_type sub_func m w e_state e_type e_cb new no_col
        known =
      let names = get_filter_rules env.regex_match info.topic_name m.subscribe_filters_rules in
      let (f, made, runs) =
        invoke-create_filter_collector info.topic_name names m.subscribe_filter_manager no_col
          known in
      let base : SubscribeWrapper (Callback P W) = record {
        info = record {
          msg_type = msg_type;
          topic_name = info.topic_name;
          pkg_path = info.pkg_path;
          module_name = info.module_name;
          index = (m.sub_topic_index + 1) % u64_mod;
        };
        require_cache_serialization_types = [];
        callback = guarded env api check_msg sub_func;
      } in
      let m' : ChannelBackendManager B P W = record m {
        sub_topic_index = (m.sub_topic_index + 1) % u64_mod;
      } in
      (
        with_chain base f,
        rw (e_state, e_type, subscribe_proxy)
            (rw (e_cb, subscribe_proxy) (subscribe_with-new base m' w f made new)),
        runs (guarded env api check_msg sub_func),
      )
