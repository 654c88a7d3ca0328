-- ===== src/Channel/Registry.antt =====
-- src/runtime/core/channel/channel_registry.{h,cc} with the data of channel_msg_wrapper.h. The index
-- maps hold pointers to wrappers that never change once stored: they are values here.
pub mod Laws
use aim_rt.Prelude.{
  ℕ, ◌≡◌, refl, Bool, true, false, ◌&&◌, List, [], ◌∷◌, ◌++◌, Option, none, some, String, string_eq,
  ◌==◌, Eq, ==_iff, if◌then◌else◌, ◌↔◌, arith,
}
use aim_rt.Prelude.Map.{Map, find, find_or, emplace, assign}

pub record TopicInfo : Type 0 where
  pub msg_type : String
  pub topic_name : String
  pub pkg_path : String
  pub module_name : String
  pub index : ℕ

-- `C` is the type of the callbacks.
pub record SubscribeWrapper (C : Type 0) : Type 0 where
  pub info : TopicInfo
  pub require_cache_serialization_types : List String
  pub callback : C

pub record PublishTypeWrapper : Type 0 where
  pub info : TopicInfo
  pub require_cache_serialization_types : List String

pub record Key : Type 0 where
  pub msg_type : String
  pub topic_name : String
  pub pkg_path : String
  pub module_name : String

abbrev pub key_beq : Key → Key → Bool
key_beq a b =
    a.msg_type == b.msg_type
    && (a.topic_name == b.topic_name
        && (a.pkg_path == b.pkg_path && a.module_name == b.module_name))

pub key_beq_iff : (a b : Key) → (key_beq a b ≡ true) ↔ (a ≡ b)
key_beq_iff a b = ground (
  arith,
  ==_iff a.msg_type b.msg_type,
  ==_iff a.topic_name b.topic_name,
  ==_iff a.pkg_path b.pkg_path,
  ==_iff a.module_name b.module_name,
)

instance abbrev pub key_eq : Eq Key
key_eq = record { eqb_iff = key_beq_iff; eqb = key_beq }

pub record MtpKey : Type 0 where
  pub msg_type : String
  pub topic_name : String
  pub pkg_path : String

abbrev pub mtp_beq : MtpKey → MtpKey → Bool
mtp_beq a b = a.msg_type == b.msg_type && (a.topic_name == b.topic_name && a.pkg_path == b.pkg_path)

pub mtp_beq_iff : (a b : MtpKey) → (mtp_beq a b ≡ true) ↔ (a ≡ b)
mtp_beq_iff a b = ground (
  arith,
  ==_iff a.msg_type b.msg_type,
  ==_iff a.topic_name b.topic_name,
  ==_iff a.pkg_path b.pkg_path,
)

instance abbrev pub mtp_eq : Eq MtpKey
mtp_eq = record { eqb_iff = mtp_beq_iff; eqb = mtp_beq }

pub record ChannelRegistry (C : Type 0) : Type 0 where
  pub publish_type_wrapper_map : Map Key PublishTypeWrapper
  pub pub_topic_index_map : Map String (List PublishTypeWrapper)
  pub subscribe_wrapper_map : Map Key (SubscribeWrapper C)
  pub sub_topic_index_map : Map String (List (SubscribeWrapper C))
  pub sub_msg_topic_pkg_index_map : Map MtpKey (Map String (SubscribeWrapper C))

abbrev pub key_of : TopicInfo → Key
key_of i = record {
  msg_type = i.msg_type;
  topic_name = i.topic_name;
  pkg_path = i.pkg_path;
  module_name = i.module_name;
}

abbrev pub mtp_of : Key → MtpKey
mtp_of k = record { msg_type = k.msg_type; topic_name = k.topic_name; pkg_path = k.pkg_path }

-- `m[k].emplace_back(v)`
abbrev pub append_at {ℓ} : {V : Type ℓ} → String → V → Map String (List V) → Map String (List V)
append_at k v m = assign k (find_or [] k m ++ v ∷ []) m

module _ {C : Type 0} where
  abbrev pub empty_registry : ChannelRegistry C
  empty_registry = record {
    publish_type_wrapper_map = [];
    pub_topic_index_map = [];
    subscribe_wrapper_map = [];
    sub_topic_index_map = [];
    sub_msg_topic_pkg_index_map = [];
  }

  unfoldable pub register_publish_type :
      PublishTypeWrapper → ChannelRegistry C → ChannelRegistry C × Bool
  register_publish_type w r =
      let key = key_of w.info in
      let (m, fresh) = emplace key w r.publish_type_wrapper_map in
      if fresh
      then (
        record r {
          publish_type_wrapper_map = m;
          pub_topic_index_map = append_at key.topic_name w r.pub_topic_index_map;
        },
        true,
      )
      else (r, false)

  unfoldable pub subscribe : SubscribeWrapper C → ChannelRegistry C → ChannelRegistry C × Bool
  subscribe w r =
      let key = key_of w.info in
      let (m, fresh) = emplace key w r.subscribe_wrapper_map in
      let modules = find_or [] (mtp_of key) r.sub_msg_topic_pkg_index_map in
      if fresh
      then (
        record r {
          subscribe_wrapper_map = m;
          sub_topic_index_map = append_at key.topic_name w r.sub_topic_index_map;
          sub_msg_topic_pkg_index_map =
              assign (mtp_of key) (assign key.module_name w modules) r.sub_msg_topic_pkg_index_map;
        },
        true,
      )
      else (r, false)

  unfoldable pub get_subscribe_wrapper : Key → ChannelRegistry C → Option (SubscribeWrapper C)
  get_subscribe_wrapper k r = find k r.subscribe_wrapper_map

  unfoldable pub get_module_subscribe_wrapper_map :
      MtpKey → ChannelRegistry C → Option (Map String (SubscribeWrapper C))
  get_module_subscribe_wrapper_map k r = find k r.sub_msg_topic_pkg_index_map

  unfoldable pub get_publish_type_wrapper : Key → ChannelRegistry C → Option PublishTypeWrapper
  get_publish_type_wrapper k r = find k r.publish_type_wrapper_map
