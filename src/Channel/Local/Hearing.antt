-- ===== src/Channel/Local/Hearing.antt =====
-- channel_registry.cc and local_channel_backend.cc together: who subscribes is heard. A subscription
-- goes to the registry first, and to the backend if the registry takes it, as in
-- channel_backend_manager.cc.
use aim_rt.Prelude.{
  ◌≡◌, refl, ap, true, false, List, [], ◌∷◌, ◌++◌, none, some, String, ◌==◌, ==_iff, if◌then◌else◌,
  arith, All, All-append, Option-cases, inl, inr,
}
use aim_rt.Prelude.Map.{find, find_or, beq_refl}
use aim_rt.Core.Lifecycle.{init, start, is_init, final}
use aim_rt.Channel.Registry.{
  TopicInfo, SubscribeWrapper, ChannelRegistry, key_eq, key_of, empty_registry, subscribe,
}
use aim_rt.Channel.Registry.Laws.{
  IsConsistent, subscribe-new, subscribe-old, subscribe-IsConsistent,
}
use aim_rt.Channel.Tools.{TypeSupport, MsgWrapper, Callback}
use aim_rt.Channel.Tools.Reading.{Agrees, HasSource}
use aim_rt.Channel.Tools.Callbacks.{Delivered}
use aim_rt.Channel.Local.{LocalChannelBackend, subscribe_local, start_backend, pkgs_of}
use aim_rt.Channel.Local.Contexts.{IsCopyOf}
use aim_rt.Channel.Local.Delivery.{Speaks, publish-Delivered}
use aim_rt.Channel.Local.Index.{IsIndexed, Occurs, subscribe_local-IsIndexed, registered_is_target}
use aim_rt.Channel.Local.Publishing.{post_with, publish, serialization_type_of}
use aim_rt.Channel.Local.Targets.{values, subs_of, targets}

module _ {C E : Type 0} where
  unfoldable pub subscribe_both :
      SubscribeWrapper C
      → ChannelRegistry C × LocalChannelBackend E
      → ChannelRegistry C × LocalChannelBackend E
  subscribe_both s (r, b) =
      let (r', taken) = subscribe s r in
      let (b', done) = subscribe_local s b in if taken then (r', b') else (r', b)

  unfoldable pub subscribe_all :
      List (SubscribeWrapper C)
      → ChannelRegistry C × LocalChannelBackend E
      → ChannelRegistry C × LocalChannelBackend E
  unfolding subscribe_both
  subscribe_all [] z = z
  subscribe_all (s ∷ ss) z = subscribe_all ss (subscribe_both s z)

  pub record Keeps (z : ChannelRegistry C × LocalChannelBackend E) : Type 0 where
    pub consistent : IsConsistent z.0
    pub indexed : IsIndexed z.0 z.1.subscribe_index_map
    pub state : z.1.state ≡ init

  subscribe_both-Keeps :
      (s : SubscribeWrapper C) (z : ChannelRegistry C × LocalChannelBackend E)
      → Keeps z
      → Keeps (subscribe_both s z)
  unfolding subscribe_both
  subscribe_both-Keeps s (r, b) k =
      elim (Option-cases (find (key_of s.info) r.subscribe_wrapper_map)) [
        | inr (v, old) ↦ rw (subscribe-old s v r old, subscribe_both) k
        | inl new ↦
            let taken : (subscribe s r).1 ≡ true = ap (λ z. z.1) (subscribe-new s r new) in
            let kept : (subscribe_local s b).0.state ≡ init =
              unfold subscribe_local in rw (subscribe_local, ap is_init k.state) (k.state) in
            rw (subscribe_both, taken)
              (record {
                consistent = subscribe-IsConsistent s r k.consistent;
                indexed = subscribe_local-IsIndexed s r b k.state k.indexed;
                state = kept;
              })
      ]

  -- What is found stays, and the first subscriber of a key is found.
  both_kept :
      (s v : SubscribeWrapper C) (z : ChannelRegistry C × LocalChannelBackend E)
      → find (key_of s.info) z.0.subscribe_wrapper_map ≡ some s
      → find (key_of s.info) (subscribe_both v z).0.subscribe_wrapper_map ≡ some s
  unfolding subscribe_both
  both_kept s v (r, b) h =
      let registry : (subscribe_both v (r, b)).0 ≡ (subscribe v r).0 = ground arith in
      elim (Option-cases (find (key_of v.info) r.subscribe_wrapper_map)) [
        | inr (u, old) ↦ rw (registry, subscribe-old v u r old) h
        | inl new ↦
            rw (registry, subscribe-new v r new)
              (unfold find in ground (arith, h, new, ==_iff (key_of v.info) (key_of s.info)))
      ]

  both_apart :
      (s v : SubscribeWrapper C) (z : ChannelRegistry C × LocalChannelBackend E)
      → (key_of v.info == key_of s.info) ≡ false
      → find (key_of s.info) z.0.subscribe_wrapper_map ≡ none
      → find (key_of s.info) (subscribe_both v z).0.subscribe_wrapper_map ≡ none
  unfolding subscribe_both
  both_apart s v (r, b) apart h =
      let registry : (subscribe_both v (r, b)).0 ≡ (subscribe v r).0 = ground arith in
      elim (Option-cases (find (key_of v.info) r.subscribe_wrapper_map)) [
        | inr (u, old) ↦ rw (registry, subscribe-old v u r old) h
        | inl new ↦ rw (registry, subscribe-new v r new) (unfold find in ground (arith, h, apart))
      ]

  both_found :
      (s : SubscribeWrapper C) (z : ChannelRegistry C × LocalChannelBackend E)
      → find (key_of s.info) z.0.subscribe_wrapper_map ≡ none
      → find (key_of s.info) (subscribe_both s z).0.subscribe_wrapper_map ≡ some s
  unfolding subscribe_both
  both_found s (r, b) new =
      let registry : (subscribe_both s (r, b)).0 ≡ (subscribe s r).0 = ground arith in
      rw (registry, subscribe-new s r new) (unfold find in rw (beq_refl (key_of s.info)) refl)

  found_kept :
      (ss : List (SubscribeWrapper C)) (s : SubscribeWrapper C)
      (z : ChannelRegistry C × LocalChannelBackend E)
      → find (key_of s.info) z.0.subscribe_wrapper_map ≡ some s
      → find (key_of s.info) (subscribe_all ss z).0.subscribe_wrapper_map ≡ some s
  unfolding subscribe_all
  found_kept [] s z h = h
  found_kept (v ∷ ss) s z h = found_kept ss s (subscribe_both v z) (both_kept s v z h)

  first_found :
      (before after : List (SubscribeWrapper C)) (s : SubscribeWrapper C)
      (z : ChannelRegistry C × LocalChannelBackend E)
      → All (λ v. (key_of v.info == key_of s.info) ≡ false) before
      → find (key_of s.info) z.0.subscribe_wrapper_map ≡ none
      → find (key_of s.info) (subscribe_all (before ++ s ∷ after) z).0.subscribe_wrapper_map
        ≡ some s
  unfolding subscribe_all
  first_found [] after s z a h = found_kept after s (subscribe_both s z) (both_found s z h)
  first_found (v ∷ before) after s z (a, as') h =
      first_found before after s (subscribe_both v z) as' (both_apart s v z a h)

  all-Keeps :
      (ss : List (SubscribeWrapper C)) (z : ChannelRegistry C × LocalChannelBackend E)
      → Keeps z
      → Keeps (subscribe_all ss z)
  unfolding subscribe_all
  all-Keeps [] z k = k
  all-Keeps (s ∷ ss) z k = all-Keeps ss (subscribe_both s z) (subscribe_both-Keeps s z k)

  empty-Keeps : (b : LocalChannelBackend E) → b.state ≡ init → Keeps (empty_registry, b)
  unfolding find find_or
  empty-Keeps b e = record {
    consistent = record { by_module = λ k. refl; subscribed = λ t. refl; published = λ t. refl };
    indexed = record { listed = λ i s f. cc; filed = λ i pkg. tt };
    state = e;
  }

module _ {C : Type 0} where
  typed_targets :
      (r : ChannelRegistry C) (i : TopicInfo) (pkgs : List String)
      → ((pkg : String) → All (λ s. s.info.msg_type ≡ i.msg_type) (values (subs_of r i pkg)))
      → All (λ s. s.info.msg_type ≡ i.msg_type) (targets r i pkgs)
  typed_targets r i [] h = tt
  typed_targets r i (pkg ∷ pkgs) h =
      All-append (λ s. s.info.msg_type ≡ i.msg_type) (values (subs_of r i pkg)) (targets r i pkgs)
        (h pkg) (typed_targets r i pkgs h)

-- Any list of subscriptions through the registry and an initialized backend, which is then started:
-- for a subscriber that is the first one of its key in the list, a publish of a message of its type
-- on its topic, which can be read as `p` from the publisher's wrapper and whose serialization type the
-- type supports of the message type speak, calls (or, with an executor, posts to it) the callbacks of
-- some list of subscribers of that message type in which the subscriber occurs, once for each in order,
-- each with its own topic information, a context that repeats the publisher's meta data except for the
-- backend's name and the serialization type, and a wrapper from which `p` can be read.
pub subscriber_hears :
    {E P D W : Type 0} (support : TopicInfo → TypeSupport P D) (execute : E → (W → W) → W → W)
    (before after : List (SubscribeWrapper (Callback P D W)))
    (s : SubscribeWrapper (Callback P D W)) (b : LocalChannelBackend E) (p : P) (m : MsgWrapper P D)
    (w : W)
    → b.state ≡ init
    → All (λ v. (key_of v.info == key_of s.info) ≡ false) before
    → m.info.msg_type ≡ s.info.msg_type
    → m.info.topic_name ≡ s.info.topic_name
    → Agrees support p m
    → HasSource support m
    → Speaks support execute p (serialization_type_of support execute m) m.info
    → let (r, b') = subscribe_all (before ++ s ∷ after) (empty_registry, b) in
      let up = final (start_backend b') in
      (called : List (SubscribeWrapper (Callback P D W))) × Delivered support
        (post_with support execute up.subscribe_executor_ref)
        p
        (IsCopyOf m.ctx)
        called
        w
        (publish support execute up r m w).1
      × Occurs s called
      × All (λ v. v.info.msg_type ≡ m.info.msg_type) called
unfolding start_backend find
subscriber_hears support execute before after s b p m w e fresh et en a h sp =
    let all = before ++ s ∷ after in
    let (r, b') = subscribe_all all (empty_registry, b) in
    let kept = all-Keeps all (empty_registry, b) (empty-Keeps b e) in
    let index = b'.subscribe_index_map in
    let called = targets r m.info (pkgs_of m.info index) in
    let typed =
      typed_targets r m.info (pkgs_of m.info index) (λ pkg. kept.indexed.filed m.info pkg) in
    rw (start_backend, ap is_init kept.state)
      (
        called,
        publish-Delivered support execute (record b' { state = start }) r p m w refl a h sp typed,
        registered_is_target r index s.info s m.info et en kept.consistent kept.indexed
            (first_found before after s (empty_registry, b) fresh refl),
        typed,
      )
