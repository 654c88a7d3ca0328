-- ===== src/Channel/Tools.antt =====
-- src/runtime/core/channel/channel_backend_tools.h with `MsgWrapper` of channel_msg_wrapper.h. `P` are
-- the messages and `D` their serialized buffers. A type support is code of the message's package and a
-- parameter; `support` stands for the field `msg_type_support_ref` of `TopicInfo`. The owner of a
-- message (`msg_cache_ptr`) and its pointer are one value.
pub mod Reading
pub mod Callbacks
use aim_rt.Prelude.{
  Bool, true, false, List, [], ◌∷◌, ◌++◌, Option, none, some, String, string_eq, ◌==◌, ◌||◌,
}
use aim_rt.Prelude.Map.{Map, find, emplace}
use aim_rt.Core.Lifecycle.{Outcome, done, thrown}
use aim_rt.Channel.Registry.{TopicInfo, SubscribeWrapper}
use aim_rt.Channel.Manager.{Context}

pub record TypeSupport (P D : Type 0) : Type 0 where
  pub serialization_types_supported : List String
  pub serialize : String → P → Option D
  pub deserialize : String → D → Option P
  pub copy : P → P

-- `DefaultSerializationType` of type_support.h: the first type of the list, which is not empty.
abbrev pub first_or : List String → String
first_or [] = ""
first_or (t ∷ ts) = t

abbrev pub default_serialization_type : {P D : Type 0} → TypeSupport P D → String
default_serialization_type s = first_or s.serialization_types_supported

pub record MsgWrapper (P D : Type 0) : Type 0 where
  pub info : TopicInfo
  pub msg_ptr : Option P
  pub ctx : Context
  pub serialization_cache : Map String D

abbrev pub Callback : Type 0 → Type 0 → Type 0 → Type 0
Callback P D W = MsgWrapper P D → W → W

-- What `SerializeMsgWithCache` returns, and the wrapper it leaves.
pub data Serialized (P D : Type 0) : Type 0 where
  cached : D → MsgWrapper P D → Serialized P D
  failed : MsgWrapper P D → Serialized P D

module _ {P D : Type 0} (support : TopicInfo → TypeSupport P D) where
  -- The message read from one entry of the cache, or an exception.
  unfoldable pub read_from : String → D → MsgWrapper P D → Outcome (MsgWrapper P D)
  read_from t d m = elim ((support m.info).deserialize t d) [
    | none ↦ thrown m
    | some p ↦ done (record m { msg_ptr = some p })
  ]

  unfoldable pub read_first : List String → MsgWrapper P D → Outcome (MsgWrapper P D)
  unfolding read_from
  read_first [] m = thrown m
  read_first (t ∷ ts) m =
      let rest = read_first ts m in
      elim (find t m.serialization_cache) [ none ↦ rest | some d ↦ read_from t d m ]

  unfoldable pub read_cache : Map String D → MsgWrapper P D → Outcome (MsgWrapper P D)
  unfolding read_from read_first
  read_cache [] m = thrown m
  read_cache ((t, d) ∷ []) m = read_from t d m
  read_cache (e ∷ f ∷ rest) m = read_first (support m.info).serialization_types_supported m

  unfoldable pub check_msg : MsgWrapper P D → Outcome (MsgWrapper P D)
  unfolding read_cache
  check_msg m = elim m.msg_ptr [ some p ↦ done m | none ↦ read_cache m.serialization_cache m ]

  unfoldable pub try_check_msg : MsgWrapper P D → MsgWrapper P D × Bool
  unfolding check_msg
  try_check_msg m = elim (check_msg m) [ done m' ↦ (m', true) | thrown m' ↦ (m', false) ]

  -- A message that is not there after `CheckMsg` cannot be serialized; `check_msg` never leaves one.
  unfoldable pub serialize_msg : String → MsgWrapper P D → Serialized P D
  serialize_msg t m = elim m.msg_ptr [
    | none ↦ failed m
    | some p ↦ elim ((support m.info).serialize t p) [
      | none ↦ failed m
      | some d ↦ cached d (record m { serialization_cache = (emplace t d m.serialization_cache).0 })
    ]
  ]

  unfoldable pub serialize_msg_with_cache : String → MsgWrapper P D → Serialized P D
  unfolding check_msg serialize_msg
  serialize_msg_with_cache t m = elim (find t m.serialization_cache) [
    | some d ↦ cached d m
    | none ↦ elim (check_msg m) [ thrown m' ↦ failed m' | done m' ↦ serialize_msg t m' ]
  ]

  unfoldable pub try_serialize_msg_with_cache : String → MsgWrapper P D → Option D × MsgWrapper P D
  unfolding serialize_msg_with_cache
  try_serialize_msg_with_cache t m = elim (serialize_msg_with_cache t m) [
    | cached d m' ↦ (some d, m')
    | failed m' ↦ (none, m')
  ]

abbrev Sub : Type 0 → Type 0 → Type 0 → Type 0
Sub P D W = SubscribeWrapper (Callback P D W)

pub record SubscribeTool (P D W : Type 0) : Type 0 where
  pub sub_wrapper_vec : List (Sub P D W)
  pub require_cache_serialization_types : List String

abbrev pub is_among : String → List String → Bool
is_among t [] = false
is_among t (x ∷ xs) = x == t || is_among t xs

module _ {P D W : Type 0} (support : TopicInfo → TypeSupport P D) where
  abbrev pub new_tool : SubscribeTool P D W
  new_tool = record { sub_wrapper_vec = []; require_cache_serialization_types = [] }

  unfoldable pub add_subscribe_wrapper : Sub P D W → SubscribeTool P D W → SubscribeTool P D W
  add_subscribe_wrapper s tool = record {
    sub_wrapper_vec = tool.sub_wrapper_vec ++ s ∷ [];
    require_cache_serialization_types =
        tool.require_cache_serialization_types ++ s.require_cache_serialization_types;
  }

  -- A wrapper for one subscriber that holds the message, or only its bytes.
  abbrev pub with_msg : Context → P → Sub P D W → MsgWrapper P D
  with_msg ctx p s = record { info = s.info; msg_ptr = some p; ctx = ctx; serialization_cache = [] }

  abbrev pub with_bytes : Context → String → D → Sub P D W → MsgWrapper P D
  with_bytes ctx t d s = record {
    info = s.info;
    msg_ptr = none;
    ctx = ctx;
    serialization_cache = (t, d) ∷ [];
  }

  unfoldable pub call_with_cache : Context → String → D → List (Sub P D W) → W → W
  call_with_cache ctx t d [] w = w
  call_with_cache ctx t d (s ∷ ss) w =
      call_with_cache ctx t d ss (s.callback (with_bytes ctx t d s) w)

  -- A message that is not deserialized ends the loop with an exception.
  unfoldable pub call_without_cache : Context → String → D → List (Sub P D W) → W → Outcome W
  call_without_cache ctx t d [] w = done w
  call_without_cache ctx t d (s ∷ ss) w = elim ((support s.info).deserialize t d) [
    | none ↦ thrown w
    | some p ↦ call_without_cache ctx t d ss (s.callback (with_msg ctx p s) w)
  ]

  -- The two overloads that take bytes: they differ in how the bytes are copied.
  unfoldable pub do_subscribe_callback : Context → String → D → SubscribeTool P D W → W → Outcome W
  unfolding call_with_cache call_without_cache
  do_subscribe_callback ctx t d tool w = elim (is_among t tool.require_cache_serialization_types) [
    | true ↦ done (call_with_cache ctx t d tool.sub_wrapper_vec w)
    | false ↦ call_without_cache ctx t d tool.sub_wrapper_vec w
  ]

  -- The overload that takes a message, called with the first subscriber.
  unfoldable pub do_subscribe_callback_msg : Context → P → List (Sub P D W) → W → Outcome W
  unfolding call_with_cache
  do_subscribe_callback_msg ctx p [] w = thrown w
  do_subscribe_callback_msg ctx p (s ∷ []) w = done (s.callback (with_msg ctx p s) w)
  do_subscribe_callback_msg ctx p (s ∷ r ∷ rs) w =
      let w' = s.callback (with_msg ctx p s) w in
      let t = default_serialization_type (support s.info) in
      elim ((support s.info).serialize t p) [
        | none ↦ thrown w'
        | some d ↦ done (call_with_cache ctx t d (r ∷ rs) w')
      ]
