-- ===== src/Channel/Manager/Numbering.antt =====
-- channel_backend_manager.cc: the messages of a topic and their numbers.
use aim_rt.Prelude.{
  ℕ, ◌+◌, ◌%◌, ◌≡◌, refl, ap, ◌∙◌, Bool, true, false, not, ◌&&◌, ◌||◌, List, [], ◌∷◌, length,
  Option, none, some, String, string_eq, if◌then◌else◌, arith, Bool-cases, Option-cases, inl, inr,
}
use aim_rt.Prelude.Map.{Map, find, assign, find-assign, beq_refl}
use aim_rt.Core.Lifecycle.{is_start}
use aim_rt.Core.Backends.{tell_all}
use aim_rt.Channel.Registry.{key_eq, TopicInfo, PublishTypeWrapper, get_publish_type_wrapper}
use aim_rt.Channel.Manager.{
  BackendApi, Env, Context, PublishProxyInfo, ChannelBackendManager, u32_mod, key_at,
}
use aim_rt.Channel.Manager.Publishing.{Published, publish_with, publish_proxy, is_publisher}
use aim_rt.Channel.Manager.Delivery.{stamped, publish_proxy-delivers}

module _ {B P W : Type 0} (env : Env) (api : BackendApi B P W) where
  -- A call of `Publish` through the proxy: its time, its message and its context.
  pub record Call : Type 0 where
    pub now : ℕ
    pub msg_ptr : Option P
    pub ctx : Context

  -- A publisher's context that no publish has used.
  abbrev pub is_fresh : Call → Bool
  is_fresh c = is_publisher c.ctx.type && not c.ctx.used

  abbrev pub fresh_calls : List Call → List Call
  fresh_calls [] = []
  fresh_calls (c ∷ cs) = let rest = fresh_calls cs in if is_fresh c then c ∷ rest else rest

  unfoldable pub publish_all :
      PublishProxyInfo P
      → List Call
      → ChannelBackendManager B P W × W
      → ChannelBackendManager B P W × W
  unfolding publish_proxy
  publish_all info [] s = s
  publish_all info (c ∷ cs) s =
      publish_all info cs
        (publish_proxy env api c.now (record info { msg_ptr = c.msg_ptr; ctx = c.ctx }) s).sys

  -- The backends get each of the messages, with the numbers that follow `n` (mod 2 ^ 32).
  abbrev pub numbered : TopicInfo → List B → ℕ → List Call → W → W
  numbered i bs n [] w = w
  numbered i bs n (c ∷ cs) w =
      let ctx = stamped env api c.now ((n + 1) % u32_mod) c.ctx in
      numbered i bs (n + 1) cs
        (tell_all (λ b. api.publish b (record { info = i; msg_ptr = c.msg_ptr; ctx = ctx })) bs w)

  stale_refused :
      (info : PublishProxyInfo P) (now : ℕ) (m : ChannelBackendManager B P W) (w : W)
      → (is_publisher info.ctx.type && not info.ctx.used) ≡ false
      → (publish_proxy env api now info (m, w)).sys ≡ (m, w)
  unfolding publish_proxy publish_with
  stale_refused info now m w e =
      let stale : (not (is_publisher info.ctx.type) || info.ctx.used) ≡ true = ground (arith, e) in
      elim (Bool-cases (is_start m.state)) [
        | inr f ↦ rw (f, publish_proxy) refl
        | inl f ↦
            elim (Option-cases (
              get_publish_type_wrapper
                (key_at info.msg_type info.topic_name info.pkg_path info.module_name) m.registry)) [
                  | inl g ↦ rw (f, g, publish_proxy) refl
                  | inr (t, g) ↦ rw (f, g, publish_proxy) (rw stale refl)
                ]
      ]

  find_assigned : (k : String) (v : ℕ) (seqs : Map String ℕ) → find k (assign k v seqs) ≡ some v
  find_assigned k v seqs =
      find-assign k k v seqs ∙ ap (λ b. if b then some v else find k seqs) (beq_refl k)

  -- A running manager with a registered type, for a topic that has no filters, but a backend list and a
  -- sequence number `n`: any list of publishes through the proxy, with any contexts. The messages
  -- whose context is a publisher's that no publish has used reach the backends of the topic, in their
  -- order and each backend once, with the numbers after `n` without gaps (mod 2 ^ 32) and their
  -- timestamps; the others reach none and take no number. The number of the topic afterwards is the
  -- last one given.
  pub publish_all-numbered :
      (cs : List Call) (info : PublishProxyInfo P) (t : PublishTypeWrapper) (bs : List B) (n : ℕ)
      (m : ChannelBackendManager B P W) (w : W)
      → is_start m.state ≡ true
      → get_publish_type_wrapper
          (key_at info.msg_type info.topic_name info.pkg_path info.module_name)
          m.registry
        ≡ some t
      → find info.topic_name m.publish_filter_manager.filter_collector_map ≡ none
      → find t.info.topic_name m.pub_topics_backend_index_map ≡ some bs
      → find info.topic_name m.pub_topic_seq_map ≡ some (n % u32_mod)
      → ((publish_all info cs (m, w)).1 ≡ numbered t.info bs n (fresh_calls cs) w)
        × (find info.topic_name (publish_all info cs (m, w)).0.pub_topic_seq_map
            ≡ some ((n + length (fresh_calls cs)) % u32_mod))
  unfolding publish_all
  publish_all-numbered [] info t bs n m w e_state e_type e_col e_bs e_n =
      let count : n % u32_mod ≡ (n + 0) % u32_mod = omega arith in (refl, e_n ∙ ap some count)
  publish_all-numbered (c ∷ cs) info t bs n m w e_state e_type e_col e_bs e_n =
      elim (Bool-cases (is_fresh c)) [
        | inr stale ↦
            let call = record info { msg_ptr = c.msg_ptr; ctx = c.ctx } in
            let unsent : (publish_proxy env api c.now call (m, w)).sys ≡ (m, w) =
              stale_refused call c.now m w stale in
            let (world, last) =
              publish_all-numbered cs info t bs n m w e_state e_type e_col e_bs e_n in
            rw stale (
              ap (λ z. (publish_all info cs z).1) unsent ∙ world,
              ap (λ z. find info.topic_name (publish_all info cs z).0.pub_topic_seq_map) unsent
                  ∙ last,
            )
        | inl fresh ↦
            let call = record info { msg_ptr = c.msg_ptr; ctx = c.ctx } in
            let next : (n % u32_mod + 1) % u32_mod ≡ (n + 1) % u32_mod = omega arith in
            let m' : ChannelBackendManager B P W = record m {
              pub_topic_seq_map = assign info.topic_name ((n + 1) % u32_mod) m.pub_topic_seq_map;
            } in
            let ctx = stamped env api c.now ((n + 1) % u32_mod) c.ctx in
            let w' =
              tell_all
                (λ b. api.publish b (record { info = t.info; msg_ptr = c.msg_ptr; ctx = ctx })) bs
                w in
            let sent : (publish_proxy env api c.now call (m, w)).sys ≡ (m', w') =
              ap (λ (p : Published B P W). p.sys)
                (publish_proxy-delivers env api c.now call t bs (n % u32_mod) m w e_state e_type
                  (ground (arith, fresh)) (ground (arith, fresh)) e_col e_bs e_n)
              ∙ ap
                  (λ k. (
                    record m { pub_topic_seq_map = assign info.topic_name k m.pub_topic_seq_map },
                    tell_all
                        (λ b. api.publish b (record {
                          info = t.info;
                          msg_ptr = c.msg_ptr;
                          ctx = stamped env api c.now k c.ctx;
                        }))
                        bs w,
                  ))
                  next in
            let (world, last) =
              publish_all-numbered cs info t bs (n + 1) m' w' e_state e_type e_col e_bs
                (find_assigned info.topic_name ((n + 1) % u32_mod) m.pub_topic_seq_map) in
            let count : (n + 1 + length (fresh_calls cs)) % u32_mod
                ≡ (n + length (c ∷ fresh_calls cs)) % u32_mod =
              omega arith in
            rw fresh (
              ap (λ z. (publish_all info cs z).1) sent ∙ world,
              ap (λ z. find info.topic_name (publish_all info cs z).0.pub_topic_seq_map) sent
                  ∙ last
                  ∙ ap some count,
            )
      ]
