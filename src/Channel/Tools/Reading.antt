-- ===== src/Channel/Tools/Reading.antt =====
-- channel_backend_tools.h: reading a message from its cache, and serializing it once.
use aim_rt.Prelude.{
  ◌≡◌, refl, sym, ap, ◌∙◌, true, false, List, [], ◌∷◌, Option, none, some, String, string_eq, ◌==◌,
  ==_iff, arith, Option-cases, inl, inr,
}
use aim_rt.Prelude.Map.{Map, find, emplace-new, find_head}
use aim_rt.Core.Lifecycle.{done}
use aim_rt.Channel.Registry.{TopicInfo}
use aim_rt.Channel.Tools.{
  TypeSupport, MsgWrapper, read_from, read_first, read_cache, check_msg, serialize_msg,
  serialize_msg_with_cache, cached, is_among,
}

module _ {P D : Type 0} (support : TopicInfo → TypeSupport P D) where
  -- The message, if it is there, is `p`, and every buffer of the cache is read as `p`.
  pub record Agrees (p : P) (m : MsgWrapper P D) : Type 0 where
    pub message : (q : P) → m.msg_ptr ≡ some q → q ≡ p
    pub entries :
        (t : String) (d : D)
        → find t m.serialization_cache ≡ some d
        → (support m.info).deserialize t d ≡ some p

  -- What `CheckMsg` needs: the message, a cache with one buffer, or a buffer of a supported type.
  pub data HasSource (m : MsgWrapper P D) : Type 0 where
    held : (q : P) → m.msg_ptr ≡ some q → HasSource m
    stored : (t : String) (d : D) → m.serialization_cache ≡ (t, d) ∷ [] → HasSource m
    supported :
        (t : String) (d : D)
        → is_among t (support m.info).serialization_types_supported ≡ true
        → find t m.serialization_cache ≡ some d
        → HasSource m

  not_the_head :
      (x t : String) (ts : List String)
      → is_among t (x ∷ ts) ≡ true
      → (x == t) ≡ false
      → is_among t ts ≡ true
  not_the_head x t ts i n = ground (arith, i, n)

  module _ (p : P) (m : MsgWrapper P D) (h : Agrees p m) where
    read_from-Agrees :
        (t : String) (d : D)
        → find t m.serialization_cache ≡ some d
        → read_from support t d m ≡ done (record m { msg_ptr = some p })
    unfolding read_from
    read_from-Agrees t d e = rw (read_from, h.entries t d e) refl

    missing :
        (x t : String)
        → find x m.serialization_cache ≡ none
        → (d : D) → find t m.serialization_cache ≡ some d
        → (x == t) ≡ false
    missing x t e d f = grind (arith, ==_iff x t)

    read_first-Agrees :
        (t : String) (d : D) (ts : List String)
        → is_among t ts ≡ true
        → find t m.serialization_cache ≡ some d
        → read_first support ts m ≡ done (record m { msg_ptr = some p })
    unfolding read_first
    read_first-Agrees t d [] i e = cc
    read_first-Agrees t d (x ∷ ts) i e = elim (Option-cases (find x m.serialization_cache)) [
      | inr (b, eb) ↦ rw (read_first, eb) (read_from-Agrees x b eb)
      | inl eb ↦
          rw (read_first, eb)
            (read_first-Agrees t d ts (not_the_head x t ts i (missing x t eb d e)) e)
    ]

    read_cache-Agrees :
        m.msg_ptr ≡ none
        → HasSource m
        → (c : Map String D) → m.serialization_cache ≡ c
        → read_cache support c m ≡ done (record m { msg_ptr = some p })
    unfolding read_cache
    read_cache-Agrees none_yet (held q e) c ec = cc
    read_cache-Agrees none_yet (stored t d e) c ec =
        ap (λ b. read_cache support b m) (sym ec ∙ e)
        ∙ read_from-Agrees t d (rw e (find_head t d []))
    read_cache-Agrees none_yet (supported t d i e) [] ec =
        let no : none ≡ some d = unfold find in sym (ap (find t) ec) ∙ e in cc
    read_cache-Agrees none_yet (supported t d i e) ((u, b) ∷ []) ec =
        read_from-Agrees u b (rw ec (find_head u b []))
    read_cache-Agrees none_yet (supported t d i e) (x ∷ y ∷ c) ec =
        read_first-Agrees t d (support m.info).serialization_types_supported i e

    -- When the message, if it is there, is `p`, every cached buffer is read as `p`, and there is the
    -- message or a buffer that `CheckMsg` looks for, `CheckMsg` succeeds and leaves the message `p`;
    -- nothing else of the wrapper changes.
    pub check_msg-Agrees : HasSource m → check_msg support m ≡ done (record m { msg_ptr = some p })
    unfolding check_msg
    check_msg-Agrees s = elim (Option-cases m.msg_ptr) [
      | inl e ↦ rw (check_msg, e) (read_cache-Agrees e s m.serialization_cache refl)
      | inr (q, e) ↦
          rw (check_msg, e, sym (h.message q e)) (ap (λ o. done (record m { msg_ptr = o })) e)
    ]

  -- The wrapper after a message has been serialized.
  abbrev with_entry : P → String → D → MsgWrapper P D → MsgWrapper P D
  with_entry p t d m = record m {
    msg_ptr = some p;
    serialization_cache = (t, d) ∷ m.serialization_cache;
  }

  serialize_msg-new :
      (p : P) (t : String) (d : D) (m : MsgWrapper P D)
      → (support m.info).serialize t p ≡ some d
      → find t m.serialization_cache ≡ none
      → serialize_msg support t (record m { msg_ptr = some p }) ≡ cached d (with_entry p t d m)
  unfolding serialize_msg
  serialize_msg-new p t d m e f =
      rw (serialize_msg, e, emplace-new t d m.serialization_cache f) refl

  with_entry-Agrees :
      (p : P) (t : String) (d : D) (m : MsgWrapper P D)
      → (support m.info).deserialize t d ≡ some p
      → Agrees p m
      → Agrees p (with_entry p t d m)
  unfolding find
  with_entry-Agrees p t d m e h = record {
    message = λ q eq. cc;
    entries = λ u b f. ground (arith, f, e, ==_iff t u, h.entries u b);
  }

  -- A wrapper with another message and cache.
  abbrev pub filled : MsgWrapper P D → Option P → Map String D → MsgWrapper P D
  filled m o c = record m { msg_ptr = o; serialization_cache = c }

  pub checked-Agrees :
      (p : P) (m : MsgWrapper P D) → Agrees p m → Agrees p (filled m (some p) m.serialization_cache)
  checked-Agrees p m h = record { message = λ q e. cc; entries = h.entries }

  -- When the type support can serialize the message `p` and reads the buffer as `p`, then in a wrapper
  -- from which `p` can be read `SerializeMsgWithCache` returns a buffer that is read as `p`. It is
  -- kept: `p` can still be read from the wrapper, which has the same topic and context, and asking
  -- again for the type returns the same buffer and changes nothing.
  pub serialize_msg_with_cache-Agrees :
      (p : P) (t : String) (m : MsgWrapper P D) (can : D)
      → (support m.info).serialize t p ≡ some can
      → (support m.info).deserialize t can ≡ some p
      → Agrees p m
      → HasSource m
      → (d : D) × (o : Option P) × (c : Map String D) × (serialize_msg_with_cache support t m
          ≡ cached d (filled m o c))
        × (find t c ≡ some d)
        × ((support m.info).deserialize t d ≡ some p)
        × Agrees p (filled m o c)
        × HasSource (filled m o c)
        × (serialize_msg_with_cache support t (filled m o c) ≡ cached d (filled m o c))
  unfolding serialize_msg_with_cache
  serialize_msg_with_cache-Agrees p t m can e reads h s =
      elim (Option-cases (find t m.serialization_cache)) [
        | inr (d, f) ↦
            let same : serialize_msg_with_cache support t m ≡ cached d m =
              rw (serialize_msg_with_cache, f) refl in
            (d, m.msg_ptr, m.serialization_cache, same, f, h.entries t d f, h, s, same)
        | inl f ↦
            let there = find_head t can m.serialization_cache in
            (
              can,
              some p,
              (t, can) ∷ m.serialization_cache,
              rw (serialize_msg_with_cache, f, check_msg-Agrees p m h s)
                  (serialize_msg-new p t can m e f),
              there,
              reads,
              with_entry-Agrees p t can m reads h,
              held p refl,
              rw (serialize_msg_with_cache, there) refl,
            )
      ]
