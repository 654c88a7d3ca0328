-- ===== src/Channel/Local/Delivery.antt =====
-- local_channel_backend.cc: a published message reaches the subscribers of its topic.
use aim_rt.Prelude.{
  ◌≡◌, refl, sym, ap, Bool, true, false, List, [], ◌∷◌, Option, none, some, String, string_eq, ◌==◌,
  All, All-left, All-right,
}
use aim_rt.Prelude.Map.{Map, find, find_or}
use aim_rt.Core.Lifecycle.{start, is_start, done, Outcome}
use aim_rt.Channel.Registry.{
  TopicInfo, SubscribeWrapper, ChannelRegistry, MtpKey, mtp_eq, get_module_subscribe_wrapper_map,
}
use aim_rt.Channel.Manager.{Context}
use aim_rt.Channel.Tools.{TypeSupport, MsgWrapper, Callback, is_among}
use aim_rt.Channel.Tools.Reading.{
  Agrees, HasSource, held, supported, filled, check_msg-Agrees, checked-Agrees,
  serialize_msg_with_cache-Agrees,
}
use aim_rt.Channel.Tools.Callbacks.{Delivered, at_end, next, Delivered-append}
use aim_rt.Channel.Local.{
  LocalChannelBackend, pkgs_of, pkg_context, set_meta_value, serialization_type_key,
}
use aim_rt.Channel.Local.Publishing.{
  post_with, call_subscribers, deliver_same, deliver_other, deliver_to, deliver_pkg, deliver_pkgs,
  publish, serialization_type_of,
}
use aim_rt.Channel.Local.Targets.{values, subs_of, targets}
use aim_rt.Channel.Local.Contexts.{IsCopyOf, pkg_context-IsCopyOf, with_type-IsCopyOf}

abbrev pub Subs : Type 0 → Type 0 → Type 0 → Type 0
Subs P D W = Map String (SubscribeWrapper (Callback P D W))

module _ {E P D W : Type 0} (support : TopicInfo → TypeSupport P D)
    (execute : E → (W → W) → W → W) where
  -- Documented behaviour of type supports: the type `t` can be written and is read back, and all
  -- type supports of a message type read the same buffers alike, copy messages and know `t`.
  pub record Speaks (p : P) (t : String) (i : TopicInfo) : Type 0 where
    pub buffer : D
    pub writes : (support i).serialize t p ≡ some buffer
    pub reads : (support i).deserialize t buffer ≡ some p
    pub alike :
        (j : TopicInfo)
        → j.msg_type ≡ i.msg_type
        → (u : String) (d : D) → (support i).deserialize u d ≡ some p
        → (support j).deserialize u d ≡ some p
    pub copies : (j : TopicInfo) → j.msg_type ≡ i.msg_type → (support j).copy p ≡ p
    pub lists :
        (j : TopicInfo)
        → j.msg_type ≡ i.msg_type
        → is_among t (support j).serialization_types_supported ≡ true

  -- Every subscriber stands under its message type.
  abbrev pub IsTyped : TopicInfo → List (SubscribeWrapper (Callback P D W)) → Type 0
  IsTyped i ss = All (λ s. s.info.msg_type ≡ i.msg_type) ss

  module _ (e : Option E) (p : P) (from : Context) where
    abbrev Reached : List (SubscribeWrapper (Callback P D W)) → W → W → Type 0
    Reached = Delivered support (post_with support execute e) p (IsCopyOf from)

    call_subscribers-Reached :
        (i : TopicInfo) (msg : Option P) (cache : Map String D) (ctx : Context) (subs : Subs P D W)
        (w : W)
        → IsCopyOf from ctx
        → ((s : SubscribeWrapper (Callback P D W))
            → s.info.msg_type ≡ i.msg_type
            → Agrees support p
                (record { info = s.info; msg_ptr = msg; ctx = ctx; serialization_cache = cache })
              × HasSource support
                  (record { info = s.info; msg_ptr = msg; ctx = ctx; serialization_cache = cache }))
        → IsTyped i (values subs)
        → Reached (values subs) w (call_subscribers support execute e msg cache ctx subs w)
    unfolding call_subscribers
    call_subscribers-Reached i msg cache ctx [] w c h t = at_end
    call_subscribers-Reached i msg cache ctx ((n, s) ∷ subs) w c h (t, ts) =
        let m : MsgWrapper P D = record {
          info = s.info;
          msg_ptr = msg;
          ctx = ctx;
          serialization_cache = cache;
        } in
        next m refl c (h s t).0 (h s t).1 (
          call_subscribers-Reached i msg cache ctx subs
            (post_with support execute e (s.callback m) w) c h ts)

    -- The step of one package: it does not throw, the message can still be read, and the package's
    -- subscribers are reached.
    abbrev Done :
        List (SubscribeWrapper (Callback P D W))
        → MsgWrapper P D
        → W
        → Outcome (MsgWrapper P D × W)
        → Type 0
    Done ss m w r =
        (o : Option P) × (c : Map String D) × (w' : W) × (r ≡ done (filled support m o c, w'))
        × Agrees support p (filled support m o c)
        × HasSource support (filled support m o c)
        × Reached ss w w'

    module _ (t : String) (m : MsgWrapper P D) (speaks : Speaks p t m.info) (same : m.ctx ≡ from)
        (a : Agrees support p m) (h : HasSource support m) where
      deliver_same-Done :
          (subs : Subs P D W) (tpl : TopicInfo) (w : W)
          → tpl.msg_type ≡ m.info.msg_type
          → IsTyped m.info (values subs)
          → Done (values subs) m w (deliver_same support execute e subs tpl m w)
      unfolding deliver_same
      deliver_same-Done subs tpl w et ts =
          let checked = check_msg-Agrees support p m a h in
          let a' = checked-Agrees support p m a in
          let ctx = pkg_context m.ctx in
          (
            some p,
            m.serialization_cache,
            call_subscribers support execute e (some p) m.serialization_cache ctx subs w,
            rw (deliver_same, checked, speaks.copies tpl et) refl,
            a',
            held p refl,
            call_subscribers-Reached m.info (some p) m.serialization_cache ctx subs w
                (rw (sym same) (pkg_context-IsCopyOf m.ctx))
                (λ s ty. (
                  record {
                    message = λ q eq. cc;
                    entries = λ u d f. speaks.alike s.info ty u d (a.entries u d f);
                  },
                  held p refl,
                ))
                ts,
          )

      deliver_other-Done :
          (subs : Subs P D W) (w : W)
          → IsTyped m.info (values subs)
          → Done (values subs) m w (deliver_other support execute e subs t m w)
      unfolding deliver_other
      deliver_other-Done subs w ts =
          let (d, o, c, cached_it, there, reads, a', h', again) =
            serialize_msg_with_cache-Agrees support p t m speaks.buffer speaks.writes speaks.reads a
              h in
          let ctx = set_meta_value serialization_type_key t (pkg_context m.ctx) in
          (
            o,
            c,
            call_subscribers support execute e none c ctx subs w,
            rw (deliver_other, cached_it) refl,
            a',
            h',
            call_subscribers-Reached m.info none c ctx subs w
                (rw (sym same) (with_type-IsCopyOf t m.ctx))
                (λ s ty. (
                  record {
                    message = λ q eq. cc;
                    entries = λ u b f. speaks.alike s.info ty u b (a'.entries u b f);
                  },
                  supported t d (speaks.lists s.info ty) there,
                ))
                ts,
          )

      deliver_to-Done :
          (found : Option (Subs P D W)) (own : Bool) (w : W)
          → IsTyped m.info (values (elim found [ none ↦ [] | some subs ↦ subs ]))
          → Done
              (values (elim found [ none ↦ [] | some subs ↦ subs ]))
              m
              w
              (deliver_to support execute e found own t m w)
      unfolding deliver_to
      deliver_to-Done none own w ts = (m.msg_ptr, m.serialization_cache, w, refl, a, h, at_end)
      deliver_to-Done (some []) own w ts = (m.msg_ptr, m.serialization_cache, w, refl, a, h, at_end)
      deliver_to-Done (some ((n, s) ∷ subs)) true w ts =
          deliver_same-Done ((n, s) ∷ subs) s.info w ts.0 ts
      deliver_to-Done (some ((n, s) ∷ subs)) false w ts = deliver_other-Done ((n, s) ∷ subs) w ts

    -- The loop over packages that are all served.
    deliver_pkgs-Reached :
        (registry : ChannelRegistry (Callback P D W)) (t : String) (pkgs : List String)
        (m : MsgWrapper P D) (w : W)
        → Speaks p t m.info
        → m.ctx ≡ from
        → Agrees support p m
        → HasSource support m
        → IsTyped m.info (targets registry m.info pkgs)
        → Reached
            (targets registry m.info pkgs)
            w
            (deliver_pkgs support execute e registry t pkgs m w).1
    unfolding deliver_pkgs deliver_pkg get_module_subscribe_wrapper_map find_or
    deliver_pkgs-Reached registry t [] m w sp same a h ts = at_end
    deliver_pkgs-Reached registry t (pkg ∷ pkgs) m w sp same a h ts =
        let key : MtpKey = record {
          msg_type = m.info.msg_type;
          topic_name = m.info.topic_name;
          pkg_path = pkg;
        } in
        let here = values (subs_of registry m.info pkg) in
        let (o, c, w', eq, a', h', reached) =
          deliver_to-Done t m sp same a h (find key registry.sub_msg_topic_pkg_index_map)
            (pkg == m.info.pkg_path) w
            (All-left (λ s. s.info.msg_type ≡ m.info.msg_type) here (targets registry m.info pkgs)
              ts) in
        let rest = deliver_pkgs-Reached registry t pkgs (filled support m o c) w' sp same a' h' (
          All-right (λ s. s.info.msg_type ≡ m.info.msg_type) here (targets registry m.info pkgs)
            ts) in
        rw (deliver_pkgs, eq)
          (Delivered-append support (post_with support execute e) p (IsCopyOf from) here
            (targets registry m.info pkgs) w w'
            (deliver_pkgs support execute e registry t pkgs (filled support m o c) w').1 reached
            rest)

  -- When the backend is started, the message `p` can be read from the publisher's wrapper, the type
  -- supports of the message type speak the serialization type that is chosen, and the subscribers
  -- stand under the message type, then `Publish` calls (or, with an executor, posts to it) the callback
  -- of every subscriber of the packages that the index lists for the topic: once for each, package by
  -- package, with its own topic information, with a context that repeats the publisher's meta data
  -- except for the backend's name and the serialization type, and with a wrapper from which `p` can be
  -- read.
  pub publish-Delivered :
      (b : LocalChannelBackend E) (registry : ChannelRegistry (Callback P D W)) (p : P)
      (m : MsgWrapper P D) (w : W)
      → b.state ≡ start
      → Agrees support p m
      → HasSource support m
      → Speaks p (serialization_type_of support execute m) m.info
      → IsTyped m.info (targets registry m.info (pkgs_of m.info b.subscribe_index_map))
      → Delivered support
          (post_with support execute b.subscribe_executor_ref)
          p
          (IsCopyOf m.ctx)
          (targets registry m.info (pkgs_of m.info b.subscribe_index_map))
          w
          (publish support execute b registry m w).1
  unfolding publish
  publish-Delivered b registry p m w st a h sp ts =
      rw (publish, ap is_start st)
        (deliver_pkgs-Reached b.subscribe_executor_ref p m.ctx registry
          (serialization_type_of support execute m) (pkgs_of m.info b.subscribe_index_map) m w sp
          refl a h ts)
