-- ===== src/Channel/Local/Publishing.antt =====
-- local_channel_backend.cc: `Publish`.
use aim_rt.Prelude.{
  Bool, true, false, List, [], ◌∷◌, Option, none, some, String, string_eq, ◌==◌, if◌then◌else◌,
}
use aim_rt.Prelude.Map.{Map}
use aim_rt.Core.Lifecycle.{Outcome, done, thrown, is_start}
use aim_rt.Channel.Registry.{
  TopicInfo, SubscribeWrapper, ChannelRegistry, MtpKey, get_module_subscribe_wrapper_map,
}
use aim_rt.Channel.Manager.{Context}
use aim_rt.Channel.Tools.{
  TypeSupport, default_serialization_type, MsgWrapper, Callback, check_msg,
  serialize_msg_with_cache, cached, failed,
}
use aim_rt.Channel.Local.{
  LocalChannelBackend, get_meta_value, set_meta_value, pkg_context, pkgs_of, serialization_type_key,
}

module _ {E P D W : Type 0} (support : TopicInfo → TypeSupport P D)
    (execute : E → (W → W) → W → W) where
  -- With an executor the callback is a task of it, otherwise it is run at once.
  abbrev pub post_with : Option E → (W → W) → W → W
  post_with none f w = f w
  post_with (some e) f w = execute e f w

  unfoldable pub call_subscribers :
      Option E
      → Option P
      → Map String D
      → Context
      → Map String (SubscribeWrapper (Callback P D W))
      → W
      → W
  call_subscribers e msg cache ctx [] w = w
  call_subscribers e msg cache ctx ((name, s) ∷ subs) w =
      let m : MsgWrapper P D = record {
        info = s.info;
        msg_ptr = msg;
        ctx = ctx;
        serialization_cache = cache;
      } in
      call_subscribers e msg cache ctx subs (post_with e (s.callback m) w)

  unfoldable pub serialization_type_of : MsgWrapper P D → String
  unfolding get_meta_value
  serialization_type_of m =
      let t = get_meta_value serialization_type_key m.ctx in
      if t == "" then default_serialization_type (support m.info) else t

  -- The publisher's package: the message is copied with the type support of the first subscriber.
  unfoldable pub deliver_same :
      Option E
      → Map String (SubscribeWrapper (Callback P D W))
      → TopicInfo
      → MsgWrapper P D
      → W
      → Outcome (MsgWrapper P D × W)
  unfolding call_subscribers pkg_context
  deliver_same e subs tpl m w = elim (check_msg support m) [
    | thrown m' ↦ thrown (m', w)
    | done m' ↦
        let msg : Option P = elim m'.msg_ptr [
          | none ↦ none
          | some p ↦ some ((support tpl).copy p)
        ] in
        done (m', call_subscribers e msg m'.serialization_cache (pkg_context m.ctx) subs w)
  ]

  -- Another package: the message is serialized, once for each type.
  unfoldable pub deliver_other :
      Option E
      → Map String (SubscribeWrapper (Callback P D W))
      → String
      → MsgWrapper P D
      → W
      → Outcome (MsgWrapper P D × W)
  unfolding call_subscribers pkg_context set_meta_value
  deliver_other e subs t m w = elim (serialize_msg_with_cache support t m) [
    | failed m' ↦ thrown (m', w)
    | cached d m' ↦ done (
      m',
      call_subscribers e none m'.serialization_cache
          (set_meta_value serialization_type_key t (pkg_context m.ctx)) subs w,
    )
  ]

  -- A package without registry information is passed over.
  unfoldable pub deliver_to :
      Option E
      → Option (Map String (SubscribeWrapper (Callback P D W)))
      → Bool
      → String
      → MsgWrapper P D
      → W
      → Outcome (MsgWrapper P D × W)
  unfolding deliver_same deliver_other
  deliver_to e none same t m w = done (m, w)
  deliver_to e (some []) same t m w = done (m, w)
  deliver_to e (some ((name, tpl) ∷ subs)) true t m w =
      deliver_same e ((name, tpl) ∷ subs) tpl.info m w
  deliver_to e (some ((name, tpl) ∷ subs)) false t m w = deliver_other e ((name, tpl) ∷ subs) t m w

  unfoldable pub deliver_pkg :
      Option E
      → ChannelRegistry (Callback P D W)
      → String
      → String
      → MsgWrapper P D
      → W
      → Outcome (MsgWrapper P D × W)
  unfolding deliver_to
  deliver_pkg e registry t pkg m w =
      let key : MtpKey = record {
        msg_type = m.info.msg_type;
        topic_name = m.info.topic_name;
        pkg_path = pkg;
      } in
      deliver_to e (get_module_subscribe_wrapper_map key registry) (pkg == m.info.pkg_path) t m w

  -- The loop over the packages; an exception ends it.
  unfoldable pub deliver_pkgs :
      Option E
      → ChannelRegistry (Callback P D W)
      → String
      → List String
      → MsgWrapper P D
      → W
      → MsgWrapper P D × W
  unfolding deliver_pkg
  deliver_pkgs e registry t [] m w = (m, w)
  deliver_pkgs e registry t (pkg ∷ pkgs) m w = elim (deliver_pkg e registry t pkg m w) [
    | thrown s ↦ s
    | done s ↦ deliver_pkgs e registry t pkgs s.0 s.1
  ]

  unfoldable pub publish :
      LocalChannelBackend E
      → ChannelRegistry (Callback P D W)
      → MsgWrapper P D
      → W
      → MsgWrapper P D × W
  unfolding deliver_pkgs serialization_type_of pkgs_of
  publish b registry m w =
      let sent =
        deliver_pkgs b.subscribe_executor_ref registry (serialization_type_of m)
          (pkgs_of m.info b.subscribe_index_map) m w in
      if is_start b.state then sent else (m, w)
