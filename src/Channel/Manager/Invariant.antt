-- ===== src/Channel/Manager/Invariant.antt =====
-- channel_backend_manager.cc: every registered publish type has its backends and its sequence number.
use aim_rt.Prelude.{
  ◌≡◌, false, List, String, string_eq, ◌==◌, ==_iff, arith, Option-cases, Bool-cases, ◌+◌, ◌%◌, inl,
  inr, if◌then◌else◌,
}
use aim_rt.Prelude.Map.{Map, find, emplace, emplace-new, emplace-old, find-emplace, find_head}
use aim_rt.Core.Lifecycle.{Outcome-cases, reached, is_init}
use aim_rt.Core.Filter.{create_filter_collector_if_not_exist}
use aim_rt.Core.Rules.{Rules, get_filter_rules}
use aim_rt.Channel.Registry.{Key, key_eq, key_of, PublishTypeWrapper, register_publish_type}
use aim_rt.Channel.Registry.Laws.{is_none}
use aim_rt.Channel.Manager.{
  BackendApi, Env, RegisterPublishTypeProxyInfo, ChannelBackendManager, u64_mod,
}
use aim_rt.Channel.Manager.Setup.{topic_backends}
use aim_rt.Channel.Manager.Publishing.{
  finish_register, register_with, register_publish_framework, register_publish_proxy,
}

abbrev pub Known : {V : Type 0} → String → Map String V → Type 0
Known topic m = is_none (find topic m) ≡ false

emplace-Known :
    {V : Type 0} (topic : String) (v : V) (m : Map String V) → Known topic (emplace topic v m).0
emplace-Known topic v m = elim (Option-cases (find topic m)) [
  | inl new ↦ rw (emplace-new topic v m new) (rw (find_head topic v m))
  | inr (old_v, old) ↦ rw (emplace-old topic v old_v m old) (rw old)
]

module _ {B P W : Type 0} where
  -- A publish type in the registry has a backend list and a sequence number for its topic.
  abbrev pub IsRoutable : ChannelBackendManager B P W → Type 0
  IsRoutable m =
      (k : Key)
      → is_none (find k m.registry.publish_type_wrapper_map) ≡ false
      → Known k.topic_name m.pub_topics_backend_index_map × Known k.topic_name m.pub_topic_seq_map

  module _ (env : Env) (api : BackendApi B P W) where
    -- After `topic_backends` the topic has an entry, and no other entry is touched.
    topic_backends-Known :
        (topic : String) (rules : Rules) (index : Map String (List B))
        (m : ChannelBackendManager B P W) (t : String)
        → is_none (find t (topic_backends env api topic rules index m).0)
          ≡ (if topic == t then false else is_none (find t index))
    unfolding topic_backends find
    topic_backends-Known topic rules index m t = ground (arith, ==_iff topic t)

    finish_register-IsRoutable :
        (wrapper : PublishTypeWrapper) (m : ChannelBackendManager B P W) (w : W)
        → Known wrapper.info.topic_name m.pub_topic_seq_map
        → IsRoutable m
        → IsRoutable (reached (finish_register env api wrapper m w)).0
    unfolding finish_register register_publish_type
    finish_register-IsRoutable wrapper m w seq h =
        elim (Option-cases (find (key_of wrapper.info) m.registry.publish_type_wrapper_map)) [
          | inr (v, old) ↦
              rw
                (emplace-old (key_of wrapper.info) wrapper v m.registry.publish_type_wrapper_map
                  old)
                h
          | inl new ↦
              rw (emplace-new (key_of wrapper.info) wrapper m.registry.publish_type_wrapper_map new)
                (λ k found. rw topic_backends-Known (
                  unfold find in
                  ground (
                    arith,
                    h k,
                    seq,
                    found,
                    ==_iff (key_of wrapper.info) k,
                    ==_iff wrapper.info.topic_name k.topic_name,
                  )))
        ]

    register_with-IsRoutable :
        (wrapper : PublishTypeWrapper) (m : ChannelBackendManager B P W) (w : W)
        → IsRoutable m
        → IsRoutable (reached (register_with env api wrapper m w)).0
    unfolding register_with
    register_with-IsRoutable wrapper m w h =
        let topic = wrapper.info.topic_name in
        let seqs = (emplace topic 0 m.pub_topic_seq_map).0 in
        let kept : (k : Key)
            → is_none (find k m.registry.publish_type_wrapper_map) ≡ false
            → Known k.topic_name m.pub_topics_backend_index_map × Known k.topic_name seqs =
          λ k found.
            ground (arith, h k found, find-emplace topic k.topic_name 0 m.pub_topic_seq_map) in
        elim (Outcome-cases (
          create_filter_collector_if_not_exist topic
            (get_filter_rules env.regex_match topic m.publish_filters_rules)
            m.publish_filter_manager)) [
              | inr (f, e) ↦ rw (e, register_with) kept
              | inl (f, e) ↦
                  rw (e, register_with)
                    (finish_register-IsRoutable wrapper
                      (record m { pub_topic_seq_map = seqs; publish_filter_manager = f }) w
                      (emplace-Known topic 0 m.pub_topic_seq_map) kept)
            ]

    -- Every registration of a publish type, by the framework or by a module, whether it succeeds,
    -- is refused or throws, keeps this: a registered publish type has a backend list and a
    -- sequence number for its topic.
    pub register-IsRoutable :
        (wrapper : PublishTypeWrapper) (info : RegisterPublishTypeProxyInfo)
        (m : ChannelBackendManager B P W) (w : W)
        → IsRoutable m
        → IsRoutable (reached (register_publish_framework env api wrapper (m, w))).0
          × IsRoutable (reached (register_publish_proxy env api info (m, w))).0
    unfolding register_publish_framework register_publish_proxy
    register-IsRoutable wrapper info m w h = elim (Bool-cases (is_init m.state)) [
      | inr e ↦ rw e (h, h)
      | inl e ↦ rw e (
        register_with-IsRoutable wrapper m w h,
        elim (Option-cases info.msg_type_support) [
          | inl n ↦ rw (n, register_publish_proxy) h
          | inr (t, n) ↦
              rw (n, register_publish_proxy)
                (register_with-IsRoutable _
                  (record m { pub_topic_index = (m.pub_topic_index + 1) % u64_mod }) w h)
        ],
      )
    ]
