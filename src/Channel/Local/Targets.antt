-- ===== src/Channel/Local/Targets.antt =====
-- The subscribers that local_channel_backend.cc looks up in the registry.
use aim_rt.Prelude.{List, [], ◌∷◌, ◌++◌, String}
use aim_rt.Prelude.Map.{Map, find_or}
use aim_rt.Channel.Registry.{TopicInfo, SubscribeWrapper, ChannelRegistry, mtp_eq}

abbrev pub values : {A : Type 0} → Map String A → List A
values [] = []
values ((n, a) ∷ m) = a ∷ values m

-- The subscribers of one package, and those of the packages of a list.
module _ {C : Type 0} where
  abbrev pub subs_of : ChannelRegistry C → TopicInfo → String → Map String (SubscribeWrapper C)
  subs_of registry i pkg =
      find_or [] (record { msg_type = i.msg_type; topic_name = i.topic_name; pkg_path = pkg })
        registry.sub_msg_topic_pkg_index_map

  abbrev pub targets : ChannelRegistry C → TopicInfo → List String → List (SubscribeWrapper C)
  targets registry i [] = []
  targets registry i (pkg ∷ pkgs) = values (subs_of registry i pkg) ++ targets registry i pkgs
