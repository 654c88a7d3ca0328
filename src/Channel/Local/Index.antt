-- ===== src/Channel/Local/Index.antt =====
-- local_channel_backend.cc: the index of the backend lists every subscriber of the registry.
use aim_rt.Prelude.{
  ◌≡◌, refl, sym, ap, ◌∙◌, true, ◌&&◌, ◌||◌, List, [], ◌∷◌, ◌++◌, map, some, String, string_eq,
  ◌==◌, ==_iff, All, arith, Option-cases, Bool-cases, inl, inr, append_assoc,
}
use aim_rt.Prelude.Map.{Map, find, find_or, assign, find_or-assign}
use aim_rt.Core.Lifecycle.{init, is_init}
use aim_rt.Channel.Registry.{
  TopicInfo, SubscribeWrapper, ChannelRegistry, MtpKey, key_eq, mtp_eq, key_of, mtp_of, subscribe,
}
use aim_rt.Channel.Registry.Laws.{IsConsistent, subscribe-new, subscribe-old}
use aim_rt.Channel.Tools.{is_among}
use aim_rt.Channel.Local.{
  LocalChannelBackend, SubscribeIndexMap, index_with, subscribe_local, pkgs_of, emplace_name,
}
use aim_rt.Channel.Local.Targets.{values, subs_of, targets}

is_among-assign :
    {V : Type 0} (x k : String) (v : V) (m : Map String V)
    → is_among x (map (λ e. e.0) (assign k v m)) ≡ (k == x || is_among x (map (λ e. e.0) m))
unfolding assign
is_among-assign x k v [] = refl
is_among-assign x k v ((j, w) ∷ m) = ground (arith, ==_iff j k, is_among-assign x k v m)

is_among-index_with :
    (x : String) (i j : TopicInfo) (m : SubscribeIndexMap)
    → is_among x (pkgs_of i (index_with j m)) ≡ (
        (j.msg_type == i.msg_type && (j.topic_name == i.topic_name && j.pkg_path == x))
        || is_among x (pkgs_of i m))
unfolding pkgs_of index_with
is_among-index_with x i j m =
    let old = find_or [] j.msg_type m in
    let pkgs = find_or [] j.topic_name old in
    let modules = emplace_name j.module_name (find_or [] j.pkg_path pkgs) in
    let new = assign j.pkg_path modules pkgs in
    let topics = assign j.topic_name new old in
    elim (Bool-cases (j.msg_type == i.msg_type)) [
      | inr e ↦ rw (pkgs_of, index_with, find_or-assign [] j.msg_type i.msg_type topics m, e) refl
      | inl e ↦
          let same = (==_iff j.msg_type i.msg_type).0 e in
          elim (Bool-cases (j.topic_name == i.topic_name)) [
            | inr f ↦
                rw
                  (
                    pkgs_of,
                    index_with,
                    find_or-assign [] j.msg_type i.msg_type topics m,
                    e,
                    find_or-assign [] j.topic_name i.topic_name new old,
                    f,
                    same,
                  )
                  refl
            | inl f ↦
                let same' = (==_iff j.topic_name i.topic_name).0 f in
                rw
                  (
                    pkgs_of,
                    index_with,
                    find_or-assign [] j.msg_type i.msg_type topics m,
                    e,
                    find_or-assign [] j.topic_name i.topic_name new old,
                    f,
                  )
                  (is_among-assign x j.pkg_path modules pkgs ∙ rw (same, same') refl)
          ]
    ]

All-assign :
    {V : Type 0} (P : V → Type 0) (k : String) (v : V) (m : Map String V)
    → P v
    → All P (values m)
    → All P (values (assign k v m))
unfolding assign
All-assign P k v [] h hs = (h, tt)
All-assign P k v ((j, w) ∷ m) h (g, hs) = elim (Bool-cases (j == k)) [
  | inl e ↦ rw (assign, e) (h, hs)
  | inr e ↦ rw (assign, e) (g, All-assign P k v m h hs)
]

module _ {C : Type 0} where
  -- The index lists the package of every subscriber, and subscribers are filed by message type.
  pub record IsIndexed (registry : ChannelRegistry C) (m : SubscribeIndexMap) : Type 0 where
    pub listed :
        (i : TopicInfo) (s : SubscribeWrapper C)
        → find (key_of i) registry.subscribe_wrapper_map ≡ some s
        → is_among i.pkg_path (pkgs_of i m) ≡ true
    pub filed :
        (i : TopicInfo) (pkg : String)
        → All (λ s. s.info.msg_type ≡ i.msg_type) (values (subs_of registry i pkg))

  -- A subscription, first in the registry and then in the backend that is initialized and not yet
  -- started, keeps the backend's index complete and the subscribers filed, whether the registry takes
  -- it or refuses it.
  pub subscribe_local-IsIndexed :
      {E : Type 0} (w : SubscribeWrapper C) (registry : ChannelRegistry C)
      (b : LocalChannelBackend E)
      → b.state ≡ init
      → IsIndexed registry b.subscribe_index_map
      → IsIndexed (subscribe w registry).0 (subscribe_local w b).0.subscribe_index_map
  unfolding subscribe_local
  subscribe_local-IsIndexed w registry b st h =
      elim (Option-cases (find (key_of w.info) registry.subscribe_wrapper_map)) [
        | inr (v, old) ↦
            rw (subscribe-old w v registry old, subscribe_local, ap is_init st)
              (record {
                listed = λ i s f.
                    is_among-index_with i.pkg_path i w.info b.subscribe_index_map
                    ∙ ground (arith, h.listed i s f);
                filed = h.filed;
              })
        | inl new ↦
            rw (subscribe-new w registry new, subscribe_local, ap is_init st)
              (record {
                listed = λ i s f.
                    is_among-index_with i.pkg_path i w.info b.subscribe_index_map
                    ∙ unfold find in
                      ground (
                        arith,
                        f,
                        h.listed i s,
                        ==_iff w.info.msg_type i.msg_type,
                        ==_iff w.info.topic_name i.topic_name,
                        ==_iff w.info.pkg_path i.pkg_path,
                        ==_iff w.info.module_name i.module_name,
                      );
                filed = λ i pkg.
                    let place : MtpKey = record {
                      msg_type = i.msg_type;
                      topic_name = i.topic_name;
                      pkg_path = pkg;
                    } in
                    elim (Bool-cases (mtp_of (key_of w.info) == place)) [
                      | inr e ↦ rw (find_or-assign, e) (h.filed i pkg)
                      | inl e ↦
                          rw (find_or-assign, e)
                            (All-assign (λ s. s.info.msg_type ≡ i.msg_type) w.info.module_name w
                              (find_or [] (mtp_of (key_of w.info))
                                registry.sub_msg_topic_pkg_index_map)
                              (ap (λ (k : MtpKey). k.msg_type)
                                ((==_iff (mtp_of (key_of w.info)) place).0 e))
                              (rw ((==_iff (mtp_of (key_of w.info)) place).0 e) (h.filed i pkg)))
                    ];
              })
      ]

-- `s` stands in the list.
abbrev pub Occurs : {A : Type 0} → A → List A → Type 0
Occurs {A} s xs = (before after : List A) × (xs ≡ before ++ s ∷ after)

Occurs-left : {A : Type 0} (s : A) (xs ys : List A) → Occurs s xs → Occurs s (xs ++ ys)
Occurs-left s xs ys (b, a, e) = (b, a ++ ys, ap (λ zs. zs ++ ys) e ∙ append_assoc b (s ∷ a) ys)

Occurs-right : {A : Type 0} (s : A) (xs ys : List A) → Occurs s ys → Occurs s (xs ++ ys)
Occurs-right s xs ys (b, a, e) =
    (xs ++ b, a, ap (λ zs. xs ++ zs) e ∙ sym (append_assoc xs b (s ∷ a)))

Occurs-values :
    {V : Type 0} (k : String) (v : V) (m : Map String V) → find k m ≡ some v → Occurs v (values m)
unfolding find
Occurs-values k v [] h = cc
Occurs-values k v ((j, w) ∷ m) h = elim (Bool-cases (j == k)) [
  | inl e ↦ let same : w ≡ v = ground (arith, h, e) in rw same ([], values m, refl)
  | inr e ↦
      let (b, a, eq) = Occurs-values k v m (ground (arith, h, e)) in
      (w ∷ b, a, ap (λ zs. w ∷ zs) eq)
]

same_pkgs :
    (i j : TopicInfo) (m : SubscribeIndexMap)
    → i.msg_type ≡ j.msg_type
    → i.topic_name ≡ j.topic_name
    → pkgs_of i m ≡ pkgs_of j m
unfolding pkgs_of
same_pkgs i j m et en = rw (et, en) refl

module _ {C : Type 0} where
  Occurs-targets :
      (registry : ChannelRegistry C) (i : TopicInfo) (s : SubscribeWrapper C) (pkgs : List String)
      → Occurs s (values (subs_of registry i i.pkg_path))
      → is_among i.pkg_path pkgs ≡ true
      → Occurs s (targets registry i pkgs)
  Occurs-targets registry i s [] o h = cc
  Occurs-targets registry i s (pkg ∷ pkgs) o h = elim (Bool-cases (pkg == i.pkg_path)) [
    | inl e ↦
        Occurs-left s (values (subs_of registry i pkg)) (targets registry i pkgs)
          (rw ((==_iff pkg i.pkg_path).0 e) o)
    | inr e ↦
        Occurs-right s (values (subs_of registry i pkg)) (targets registry i pkgs)
          (Occurs-targets registry i s pkgs o (ground (arith, h, e)))
  ]

  same_targets :
      (registry : ChannelRegistry C) (i j : TopicInfo)
      → i.msg_type ≡ j.msg_type
      → i.topic_name ≡ j.topic_name
      → (pkgs : List String) → targets registry i pkgs ≡ targets registry j pkgs
  same_targets registry i j et en [] = refl
  same_targets registry i j et en (pkg ∷ pkgs) =
      rw (et, en, same_targets registry i j et en pkgs) refl

  -- In a consistent registry whose subscribers the backend's index covers, every subscriber that is
  -- registered for a message type and a topic is one of those that a message of that type on
  -- that topic, from any package, is delivered to.
  pub registered_is_target :
      (registry : ChannelRegistry C) (m : SubscribeIndexMap) (i : TopicInfo)
      (s : SubscribeWrapper C) (msg : TopicInfo)
      → msg.msg_type ≡ i.msg_type
      → msg.topic_name ≡ i.topic_name
      → IsConsistent registry
      → IsIndexed registry m
      → find (key_of i) registry.subscribe_wrapper_map ≡ some s
      → Occurs s (targets registry msg (pkgs_of msg m))
  registered_is_target registry m i s msg et en c h f =
      rw (same_targets registry msg i et en (pkgs_of msg m), same_pkgs msg i m et en)
        (Occurs-targets registry i s (pkgs_of i m)
          (Occurs-values i.module_name s (subs_of registry i i.pkg_path)
            (sym (c.by_module (key_of i)) ∙ f))
          (h.listed i s f))
