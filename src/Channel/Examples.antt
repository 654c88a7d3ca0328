-- ===== src/Channel/Examples.antt =====
-- The channel manager and its registry on a topic "chatter" with two backends.
use aim_rt.Prelude.{
  ℕ, ◌≡◌, refl, true, false, List, [], ◌∷◌, ◌++◌, some, string_eq, ◌==◌, if◌then◌else◌, ◌||◌,
  nat_eq, arith,
}
use aim_rt.Prelude.Map.{find, find_or, assign, emplace}
use aim_rt.Core.Lifecycle.{init, start, done, returned, reached}
use aim_rt.Core.Filter.{
  FilterManager, empty_manager, create_filter_collector_if_not_exist, invoke, get_filter_collector,
}
use aim_rt.Core.Filter.Chain.{chained, invoke-create_filter_collector}
use aim_rt.Core.Rules.{Rules, get_backends_by_rules, get_filter_rules}
use aim_rt.Channel.Registry.{
  TopicInfo, SubscribeWrapper, PublishTypeWrapper, key_of, key_eq, empty_registry, subscribe,
  register_publish_type, get_subscribe_wrapper, get_publish_type_wrapper,
}
use aim_rt.Channel.Registry.Laws.{IsConsistent, subscribe-IsConsistent}
use aim_rt.Channel.Manager.{
  BackendApi, Env, Callback, MsgWrapper, Context, publisher, RegisterPublishTypeProxyInfo,
  SubscribeProxyInfo, PublishProxyInfo, ChannelBackendManager,
}
use aim_rt.Channel.Manager.Setup.{subscribe_proxy, guarded}
use aim_rt.Channel.Manager.Publishing.{publish_with, publish_proxy, register_publish_proxy}
use aim_rt.Channel.Manager.Invariant.{IsRoutable}
use aim_rt.Channel.Manager.Numbering.{
  Call, fresh_calls, numbered, publish_all, publish_all-numbered,
}
use aim_rt.Channel.Manager.Delivery.{subscribe_proxy-callback, stamped}

-- The world is a log: each backend that publishes leaves its number.
abbrev demo_env : Env
demo_env = record {
  regex_match = λ pattern text. some (pattern == "(.*)" || pattern == text);
  to_string = λ n. "n";
}

abbrev demo_api : BackendApi ℕ ℕ (List ℕ)
demo_api = record {
  name = λ b. if b == 1 then "local" else "mqtt";
  start = λ b w. w;
  shutdown = λ b w. w;
  register_publish_type = λ b t w. (w, true);
  subscribe = λ b t w. (w, true);
  publish = λ b msg w. w ++ b ∷ [];
}

abbrev demo_info : TopicInfo
demo_info = record {
  msg_type = "Str";
  topic_name = "chatter";
  pkg_path = "p.so";
  module_name = "mod";
  index = 1;
}

abbrev demo_pub : PublishTypeWrapper
demo_pub = record { info = demo_info; require_cache_serialization_types = [] }

abbrev demo_callback : Callback ℕ (List ℕ)
demo_callback msg w = w ++ 7 ∷ []

abbrev demo_sub : SubscribeWrapper (Callback ℕ (List ℕ))
demo_sub = record {
  info = demo_info;
  require_cache_serialization_types = [];
  callback = demo_callback;
}

abbrev demo_rules : Rules
demo_rules = ("other", "mqtt" ∷ []) ∷ ("(.*)", "mqtt" ∷ "absent" ∷ "local" ∷ []) ∷ []

abbrev demo_filters : FilterManager (MsgWrapper ℕ) (List ℕ)
demo_filters = record empty_manager { filter_map = ("trace", λ m h w. h m (w ++ 9 ∷ [])) ∷ [] }

abbrev demo_manager : ChannelBackendManager ℕ ℕ (List ℕ)
demo_manager = record {
  state = init;
  sub_topic_index = 0;
  pub_topic_index = 0;
  registry = empty_registry;
  publish_filters_rules = [];
  subscribe_filters_rules = ("chatter", "trace" ∷ []) ∷ [];
  publish_filter_manager = empty_manager;
  subscribe_filter_manager = demo_filters;
  channel_backend_index_vec = 1 ∷ 2 ∷ [];
  pub_topics_backends_rules = demo_rules;
  sub_topics_backends_rules = demo_rules;
  pub_topics_backend_index_map = [];
  sub_topics_backend_index_map = [];
  pub_topic_seq_map = [];
}

abbrev demo_register : RegisterPublishTypeProxyInfo
demo_register = record {
  pkg_path = "p.so";
  module_name = "mod";
  topic_name = "chatter";
  msg_type_support = some "Str";
}

abbrev demo_subscribe : SubscribeProxyInfo ℕ (List ℕ)
demo_subscribe = record {
  pkg_path = "p.so";
  module_name = "mod";
  topic_name = "chatter";
  msg_type_support = some "Str";
  callback = some demo_callback;
}

abbrev demo_ctx : Context
demo_ctx = record { type = publisher; used = false; meta = [] }

abbrev demo_publish : PublishProxyInfo ℕ
demo_publish = record {
  pkg_path = "p.so";
  module_name = "mod";
  topic_name = "chatter";
  msg_type = "Str";
  ctx = demo_ctx;
  msg_ptr = some 5;
}

abbrev demo_msg : MsgWrapper ℕ
demo_msg = record { info = demo_info; msg_ptr = some 5; ctx = demo_ctx }

-- After the registration, and started.
abbrev demo_started : ChannelBackendManager ℕ ℕ (List ℕ)
demo_started = record demo_manager {
  state = start;
  pub_topic_index = 1;
  registry = record empty_registry {
    publish_type_wrapper_map = (key_of demo_info, demo_pub) ∷ [];
    pub_topic_index_map = ("chatter", demo_pub ∷ []) ∷ [];
  };
  pub_topics_backend_index_map = ("chatter", 2 ∷ 1 ∷ []) ∷ [];
  pub_topic_seq_map = ("chatter", 0) ∷ [];
}

demo_registers :
    register_publish_proxy demo_env demo_api demo_register (demo_manager, [])
    ≡ returned (record demo_started { state = init }, []) true
unfolding register_publish_proxy register_publish_type find create_filter_collector_if_not_exist
    get_filter_rules emplace assign get_backends_by_rules find_or
demo_registers = refl

demo_publishes :
    (publish_proxy demo_env demo_api 3 demo_publish (demo_started, [])).sys.1 ≡ 2 ∷ 1 ∷ []
unfolding publish_proxy publish_with get_publish_type_wrapper find invoke get_filter_collector
demo_publishes = refl

empty-IsConsistent : IsConsistent (empty_registry {C = Callback ℕ (List ℕ)})
unfolding find find_or
empty-IsConsistent = record { by_module = λ k. refl; subscribed = λ t. refl; published = λ t. refl }

subscribe-IsConsistent_example : IsConsistent (subscribe demo_sub empty_registry).0
subscribe-IsConsistent_example = subscribe-IsConsistent demo_sub empty_registry empty-IsConsistent

empty-IsRoutable : IsRoutable demo_manager
unfolding find
empty-IsRoutable k h = ground arith

-- The first call once more, with the context that it left, takes no number.
abbrev demo_calls : List (Call demo_env demo_api)
demo_calls =
    record { now = 3; msg_ptr = demo_publish.msg_ptr; ctx = demo_ctx }
    ∷ record {
      now = 4;
      msg_ptr = demo_publish.msg_ptr;
      ctx = stamped demo_env demo_api 3 1 demo_ctx;
    }
    ∷ record { now = 5; msg_ptr = demo_publish.msg_ptr; ctx = demo_ctx }
    ∷ []

publish_all-numbered_example :
    ((publish_all demo_env demo_api demo_publish demo_calls (demo_started, [])).1
      ≡ numbered demo_env demo_api demo_msg.info
          (2 ∷ 1 ∷ [])
          0
          (fresh_calls demo_env demo_api demo_calls)
          [])
    × (find "chatter"
          (publish_all demo_env demo_api demo_publish demo_calls
            (demo_started, [])).0.pub_topic_seq_map
        ≡ some 2)
unfolding get_publish_type_wrapper find
publish_all-numbered_example =
    publish_all-numbered demo_env demo_api demo_calls demo_publish demo_pub (2 ∷ 1 ∷ []) 0
      demo_started [] refl refl refl refl refl

subscribe_proxy-callback_example :
    (made : SubscribeWrapper (Callback ℕ (List ℕ))) × (get_subscribe_wrapper
        (key_of demo_info)
        (reached
          (subscribe_proxy demo_env demo_api some demo_subscribe (demo_manager, []))).0.registry
      ≡ some made)
    × ((msg : MsgWrapper ℕ) (v : List ℕ)
        → made.callback msg v
          ≡ chained demo_filters.filter_map
              (get_filter_rules demo_env.regex_match "chatter" demo_manager.subscribe_filters_rules)
              (guarded demo_env demo_api some demo_callback)
              msg
              v)
unfolding get_subscribe_wrapper find get_filter_rules
subscribe_proxy-callback_example =
    subscribe_proxy-callback demo_env demo_api some demo_subscribe "Str" demo_callback demo_manager
      [] refl refl refl refl refl (((λ m h w. h m (w ++ 9 ∷ [])), refl), tt)

invoke-create_filter_collector_example :
    (made : FilterManager (MsgWrapper ℕ) (List ℕ)) × (create_filter_collector_if_not_exist "chatter"
        ("trace" ∷ [])
        demo_filters
      ≡ done made)
    × ((h : MsgWrapper ℕ → List ℕ → List ℕ) (m : MsgWrapper ℕ) (w : List ℕ)
        → invoke (get_filter_collector "chatter" made) h m w
          ≡ chained demo_filters.filter_map ("trace" ∷ []) h m w)
unfolding find
invoke-create_filter_collector_example =
    invoke-create_filter_collector "chatter" ("trace" ∷ []) demo_filters refl
      (((λ m h w. h m (w ++ 9 ∷ [])), refl), tt)
