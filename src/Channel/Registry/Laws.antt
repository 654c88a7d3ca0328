-- ===== src/Channel/Registry/Laws.antt =====
-- The channel registry: lookups after a registration, and the index maps against the main maps.
use aim_rt.Prelude.{
  ◌≡◌, refl, ap, Bool, true, false, List, [], ◌∷◌, ◌++◌, Option, none, some, String, string_eq,
  ◌==◌, ==_iff, if◌then◌else◌, arith, Option-cases, inl, inr,
}
use aim_rt.Prelude.Map.{
  Map, find, find_or, assign, find-assign, emplace-new, emplace-old, find_or-assign,
}
use aim_rt.Channel.Registry.{
  Key, key_eq, mtp_eq, key_of, mtp_of, SubscribeWrapper, PublishTypeWrapper, ChannelRegistry,
  subscribe, register_publish_type, append_at, get_subscribe_wrapper,
}

abbrev pub is_none {ℓ} : {A : Type ℓ} → Option A → Bool
is_none none = true
is_none (some a) = false

-- The entries of a topic, oldest first (a new entry stands at the head of the map).
abbrev pub by_topic {ℓ} : {V : Type ℓ} → String → Map Key V → List V
by_topic topic [] = []
by_topic topic ((k, v) ∷ m) =
    if k.topic_name == topic then by_topic topic m ++ v ∷ [] else by_topic topic m

-- What `emplace` and `emplace_back` do to a topic.
by_topic-append {ℓ} :
    {V : Type ℓ} (k : Key) (v : V) (m : Map Key V) (idx : Map String (List V))
    → ((t : String) → by_topic t m ≡ find_or [] t idx)
    → (t : String) → by_topic t ((k, v) ∷ m) ≡ find_or [] t (append_at k.topic_name v idx)
by_topic-append k v m idx h t =
    rw (find_or-assign, h t)
      (ground (arith, ==_iff k.topic_name t, ap (λ (x : String). find_or [] x idx ++ v ∷ [])))

module _ {C : Type 0} where
  -- Subscribers are found by key and by module, and every topic lists its entries in order.
  pub record IsConsistent (r : ChannelRegistry C) : Type 0 where
    pub by_module :
        (k : Key)
        → find k r.subscribe_wrapper_map
          ≡ find k.module_name (find_or [] (mtp_of k) r.sub_msg_topic_pkg_index_map)
    pub subscribed :
        (t : String) → by_topic t r.subscribe_wrapper_map ≡ find_or [] t r.sub_topic_index_map
    pub published :
        (t : String) → by_topic t r.publish_type_wrapper_map ≡ find_or [] t r.pub_topic_index_map

  pub subscribe-new :
      (w : SubscribeWrapper C) (r : ChannelRegistry C)
      → find (key_of w.info) r.subscribe_wrapper_map ≡ none
      → subscribe w r ≡ (
        record r {
          subscribe_wrapper_map = (key_of w.info, w) ∷ r.subscribe_wrapper_map;
          sub_topic_index_map = append_at w.info.topic_name w r.sub_topic_index_map;
          sub_msg_topic_pkg_index_map =
              assign
                (mtp_of (key_of w.info))
                (assign w.info.module_name w
                  (find_or [] (mtp_of (key_of w.info)) r.sub_msg_topic_pkg_index_map))
                r.sub_msg_topic_pkg_index_map;
        },
        true,
      )
  unfolding subscribe
  subscribe-new w r h = rw (emplace-new (key_of w.info) w r.subscribe_wrapper_map h)

  pub subscribe-old :
      (w v : SubscribeWrapper C) (r : ChannelRegistry C)
      → find (key_of w.info) r.subscribe_wrapper_map ≡ some v
      → subscribe w r ≡ (r, false)
  unfolding subscribe
  subscribe-old w v r h = rw (emplace-old (key_of w.info) w v r.subscribe_wrapper_map h)

  -- A subscription keeps the registry consistent (subscribers are found by key and by module alike,
  -- and the index by topic lists every topic's entries in order), whether it is taken or refused.
  pub subscribe-IsConsistent :
      (w : SubscribeWrapper C) (r : ChannelRegistry C)
      → IsConsistent r
      → IsConsistent (subscribe w r).0
  subscribe-IsConsistent w r h =
      elim (Option-cases (find (key_of w.info) r.subscribe_wrapper_map)) [
        | inr (v, old) ↦ rw (subscribe-old w v r old) h
        | inl new ↦ rw (subscribe-new w r new) (record {
          by_module = λ k.
              unfold find in
              rw find_or-assign (
                ground (
                  arith,
                  find-assign w.info.module_name k.module_name w
                      (find_or [] (mtp_of (key_of w.info)) r.sub_msg_topic_pkg_index_map),
                  h.by_module k,
                  ==_iff (key_of w.info) k,
                  ==_iff (mtp_of (key_of w.info)) (mtp_of k),
                  ==_iff w.info.module_name k.module_name,
                ));
          subscribed =
              by_topic-append (key_of w.info) w r.subscribe_wrapper_map r.sub_topic_index_map
                h.subscribed;
          published = h.published;
        })
      ]

  -- The registration of a publish type keeps the registry consistent in the same way, whether it is
  -- taken or refused.
  pub register_publish_type-IsConsistent :
      (w : PublishTypeWrapper) (r : ChannelRegistry C)
      → IsConsistent r
      → IsConsistent (register_publish_type w r).0
  unfolding register_publish_type
  register_publish_type-IsConsistent w r h =
      elim (Option-cases (find (key_of w.info) r.publish_type_wrapper_map)) [
        | inr (v, old) ↦ rw (emplace-old (key_of w.info) w v r.publish_type_wrapper_map old) h
        | inl new ↦ rw (emplace-new (key_of w.info) w r.publish_type_wrapper_map new) (record {
          by_module = h.by_module;
          subscribed = h.subscribed;
          published =
              by_topic-append (key_of w.info) w r.publish_type_wrapper_map r.pub_topic_index_map
                h.published;
        })
      ]

  -- `Subscribe` succeeds exactly on a new key; then the new wrapper is found under its key, every
  -- other key is found as before, and a refused call changes no key.
  pub get-subscribe :
      (w : SubscribeWrapper C) (r : ChannelRegistry C) (k : Key)
      → ((subscribe w r).1 ≡ is_none (get_subscribe_wrapper (key_of w.info) r))
        × (get_subscribe_wrapper k (subscribe w r).0 ≡ (
            if (subscribe w r).1
            then (if key_of w.info == k then some w else get_subscribe_wrapper k r)
            else get_subscribe_wrapper k r))
  unfolding get_subscribe_wrapper
  get-subscribe w r k = elim (Option-cases (find (key_of w.info) r.subscribe_wrapper_map)) [
    | inr (v, old) ↦ rw (subscribe-old w v r old, old) (refl, refl)
    | inl new ↦ rw (subscribe-new w r new, new) (refl, unfold find in refl)
  ]
