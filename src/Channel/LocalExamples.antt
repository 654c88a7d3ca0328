-- ===== src/Channel/LocalExamples.antt =====
-- The local backend with one subscriber in the publisher's package and one in another. A message is a
-- number, and its serialized form the number after it.
use aim_rt.Prelude.{
  ℕ, ◌+◌, ◌-◌, ◌≡◌, refl, false, List, [], ◌∷◌, All, Option, none, some, String, string_eq,
}
use aim_rt.Prelude.Map.{find, find_or, assign, emplace}
use aim_rt.Core.Lifecycle.{start, init, done, final}
use aim_rt.Channel.Registry.{
  TopicInfo, SubscribeWrapper, ChannelRegistry, empty_registry, subscribe, key_eq, mtp_eq,
}
use aim_rt.Channel.Registry.Laws.{IsConsistent}
use aim_rt.Channel.Manager.{Context, publisher}
use aim_rt.Channel.Tools.{
  TypeSupport, MsgWrapper, Callback, SubscribeTool, new_tool, add_subscribe_wrapper,
  serialize_msg_with_cache, cached, do_subscribe_callback,
}
use aim_rt.Channel.Tools.Reading.{Agrees, HasSource, held, serialize_msg_with_cache-Agrees, filled}
use aim_rt.Channel.Tools.Callbacks.{Delivered, do_subscribe_callback-Delivered, at_once}
use aim_rt.Channel.Local.{
  LocalChannelBackend, new_backend, start_backend, subscribe_local, index_with, pkgs_of,
  get_meta_value,
}
use aim_rt.Channel.Local.Publishing.{publish, post_with, serialization_type_of}
use aim_rt.Channel.Local.Targets.{targets}
use aim_rt.Channel.Local.Contexts.{IsCopyOf}
use aim_rt.Channel.Local.Index.{IsIndexed, subscribe_local-IsIndexed, Occurs}
use aim_rt.Channel.Local.Hearing.{subscribe_all, subscriber_hears}
use aim_rt.Channel.Local.Delivery.{Speaks, publish-Delivered}

abbrev demo_support : TopicInfo → TypeSupport ℕ ℕ
demo_support i = record {
  serialization_types_supported = "pb" ∷ [];
  serialize = λ t p. some (p + 1);
  deserialize = λ t d. some (d - 1);
  copy = λ p. p;
}

abbrev demo_info : String → String → TopicInfo
demo_info pkg mod_name = record {
  msg_type = "pb:Msg";
  topic_name = "topic";
  pkg_path = pkg;
  module_name = mod_name;
  index = 0;
}

-- A callback counts.
abbrev demo_sub : String → String → SubscribeWrapper (Callback ℕ ℕ ℕ)
demo_sub pkg mod_name = record {
  info = demo_info pkg mod_name;
  require_cache_serialization_types = [];
  callback = λ m w. w + 1;
}

abbrev demo_registry : ChannelRegistry (Callback ℕ ℕ ℕ)
demo_registry = (subscribe (demo_sub "b" "two") (subscribe (demo_sub "a" "one") empty_registry).0).0

abbrev demo_backend : LocalChannelBackend String
demo_backend = record new_backend { state = init }

abbrev demo_subscribed : LocalChannelBackend String
demo_subscribed =
    (subscribe_local (demo_sub "b" "two") (subscribe_local (demo_sub "a" "one") demo_backend).0).0

abbrev demo_ctx : Context
demo_ctx = record { type = publisher; used = false; meta = [] }

abbrev demo_msg : MsgWrapper ℕ ℕ
demo_msg = record {
  info = demo_info "a" "zero";
  msg_ptr = some 7;
  ctx = demo_ctx;
  serialization_cache = [];
}

abbrev demo_execute : String → (ℕ → ℕ) → ℕ → ℕ
demo_execute e f w = f w

demo_msg-Agrees : Agrees demo_support 7 demo_msg
unfolding find
demo_msg-Agrees = record { message = λ q e. cc; entries = λ t d e. cc }

empty-IsIndexed : IsIndexed (empty_registry {C = Callback ℕ ℕ ℕ}) demo_backend.subscribe_index_map
unfolding find find_or
empty-IsIndexed = record { listed = λ i s f. cc; filed = λ i pkg. tt }

empty-IsConsistent : IsConsistent (empty_registry {C = Callback ℕ ℕ ℕ})
unfolding find find_or
empty-IsConsistent = record { by_module = λ k. refl; subscribed = λ t. refl; published = λ t. refl }

subscribe_local-IsIndexed_example :
    IsIndexed
      (subscribe (demo_sub "a" "one") empty_registry).0
      (subscribe_local (demo_sub "a" "one") demo_backend).0.subscribe_index_map
subscribe_local-IsIndexed_example =
    subscribe_local-IsIndexed (demo_sub "a" "one") empty_registry demo_backend refl empty-IsIndexed

demo_support-Speaks :
    Speaks demo_support demo_execute 7
      (serialization_type_of demo_support demo_execute demo_msg)
      demo_msg.info
unfolding serialization_type_of get_meta_value find_or find
demo_support-Speaks = record {
  buffer = 8;
  writes = refl;
  reads = refl;
  alike = λ j e u d h. h;
  copies = λ j e. refl;
  lists = λ j e. refl;
}

publish-Delivered_example :
    Delivered demo_support
      (post_with demo_support demo_execute none)
      7
      (IsCopyOf demo_ctx)
      (targets demo_registry demo_msg.info
        (pkgs_of demo_msg.info demo_subscribed.subscribe_index_map))
      0
      (publish demo_support demo_execute
        (record demo_subscribed { state = start })
        demo_registry
        demo_msg
        0).1
unfolding subscribe_local
publish-Delivered_example =
    publish-Delivered demo_support demo_execute (record demo_subscribed { state = start })
      demo_registry 7 demo_msg 0 refl demo_msg-Agrees (held 7 refl) demo_support-Speaks
      (unfold subscribe emplace find find_or assign subscribe_local index_with pkgs_of in
        (refl, (refl, tt)))

subscriber_hears_example :
    let (r, b') =
      subscribe_all (demo_sub "a" "one" ∷ demo_sub "b" "two" ∷ []) (empty_registry, demo_backend) in
    let up = final (start_backend b') in
    (called : List (SubscribeWrapper (Callback ℕ ℕ ℕ))) × Delivered demo_support
      (post_with demo_support demo_execute up.subscribe_executor_ref)
      7
      (IsCopyOf demo_ctx)
      called
      0
      (publish demo_support demo_execute up r demo_msg 0).1
    × Occurs (demo_sub "b" "two") called
    × All (λ v. v.info.msg_type ≡ demo_msg.info.msg_type) called
subscriber_hears_example =
    subscriber_hears demo_support demo_execute (demo_sub "a" "one" ∷ []) [] (demo_sub "b" "two")
      demo_backend 7 demo_msg 0 refl (refl, tt) refl refl demo_msg-Agrees (held 7 refl)
      demo_support-Speaks

serialize_msg_with_cache-Agrees_example :
    (d : ℕ) × (o : Option ℕ) × (c : List (String × ℕ)) × (serialize_msg_with_cache demo_support "pb"
        demo_msg
      ≡ cached d (filled demo_support demo_msg o c))
    × (find "pb" c ≡ some d)
    × ((demo_support demo_msg.info).deserialize "pb" d ≡ some 7)
    × Agrees demo_support 7 (filled demo_support demo_msg o c)
    × HasSource demo_support (filled demo_support demo_msg o c)
    × (serialize_msg_with_cache demo_support "pb" (filled demo_support demo_msg o c)
        ≡ cached d (filled demo_support demo_msg o c))
serialize_msg_with_cache-Agrees_example =
    serialize_msg_with_cache-Agrees demo_support 7 "pb" demo_msg 8 refl refl demo_msg-Agrees
      (held 7 refl)

abbrev demo_tool : SubscribeTool ℕ ℕ ℕ
demo_tool = add_subscribe_wrapper demo_support (demo_sub "a" "one") (new_tool demo_support)

do_subscribe_callback-Delivered_example :
    (w : ℕ) × (do_subscribe_callback demo_support demo_ctx "pb" 8 demo_tool 0 ≡ done w)
    × Delivered demo_support
        (at_once demo_support)
        7
        (λ c. c ≡ demo_ctx)
        demo_tool.sub_wrapper_vec
        0
        w
do_subscribe_callback-Delivered_example =
    do_subscribe_callback-Delivered demo_support demo_ctx "pb" 8 7 demo_tool 0
      (unfold add_subscribe_wrapper in (refl, tt))
