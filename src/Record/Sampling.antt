-- ===== src/Record/Sampling.antt =====
-- record_action.cc: which records `AddRecord` hands to the executor.
use aim_rt.Prelude.{
  ℕ, ◌+◌, ◌-◌, ◌≤◌, ◌<◌, ◌≡◌, refl, ap, subst, ◌∙◌, true, false, not, ◌||◌, List, [], ◌∷◌, Option,
  none, some, nat_eq, ◌==◌, ==_iff, ltb, if◌then◌else◌, All, arith, Bool-cases, inl, inr,
}
use aim_rt.Prelude.Map.{find_or, find_or-assign}
use aim_rt.Core.Lifecycle.{is_start}
use aim_rt.Record.Files.{OneRecord, TopicRuntimeInfo}
use aim_rt.Record.{RecordAction, add_record, accepted, new_info, is_too_frequent, sub64, u64_mod}
use aim_rt.Record.Searching.{IsSorted}

module _ {V : Type 0} where
  abbrev pub info_of : ℕ → RecordAction V → TopicRuntimeInfo V
  info_of i a = find_or new_info i a.topic_runtime_map

  abbrev pub with_posted : Option (OneRecord V) → List (OneRecord V) → List (OneRecord V)
  with_posted none rs = rs
  with_posted (some r) rs = r ∷ rs

  -- What a sequence of calls hands over.
  unfoldable pub posted : List (OneRecord V) → RecordAction V → List (OneRecord V)
  unfolding add_record
  posted [] a = []
  posted (r ∷ rs) a = with_posted (add_record r a).1 (posted rs (add_record r a).0)

  -- Those of topic `i` are at least `n` apart, and the first one is so from `last`.
  abbrev pub Spaced : ℕ → ℕ → ℕ → List (OneRecord V) → Type 0
  Spaced i n last [] = Unit {0}
  Spaced i n last (r ∷ rs) =
      ((r.topic_index == i) ≡ true → last + n ≤ r.log_timestamp)
      × Spaced i n (if r.topic_index == i then r.log_timestamp else last) rs

  -- Nothing is handed over and the topics are as before, or the record is, and its topic has its time.
  data Added (r : OneRecord V) (a : RecordAction V)
      : RecordAction V × Option (OneRecord V) → Type 0 where
    skipped : {b : RecordAction V} → ((i : ℕ) → info_of i b ≡ info_of i a) → Added r a (b, none)
    handed :
        {b : RecordAction V}
        → ((i : ℕ)
            → info_of i b ≡ (if r.topic_index == i then accepted r (info_of i a) else info_of i a))
        → is_too_frequent r (info_of r.topic_index a) ≡ false
        → Added r a (b, some r)

  same_info :
      (k i : ℕ) (a : RecordAction V) → (if k == i then info_of k a else info_of i a) ≡ info_of i a
  same_info k i a = elim (Bool-cases (k == i)) [
    | inl e ↦ rw e (ap (λ j. info_of j a) ((==_iff k i).0 e))
    | inr e ↦ rw e refl
  ]

  accepted_info :
      (k i : ℕ) (r : OneRecord V) (a : RecordAction V)
      → (if k == i then accepted r (info_of k a) else info_of i a)
        ≡ (if k == i then accepted r (info_of i a) else info_of i a)
  accepted_info k i r a = elim (Bool-cases (k == i)) [
    | inl e ↦ rw e (ap (λ j. accepted r (info_of j a)) ((==_iff k i).0 e))
    | inr e ↦ rw e refl
  ]

  add_record-Added : (r : OneRecord V) (a : RecordAction V) → Added r a (add_record r a)
  unfolding add_record
  add_record-Added r a =
      let k = r.topic_index in
      let info = info_of k a in
      let m = a.topic_runtime_map in
      elim (Bool-cases (is_start a.state)) [
        | inr e ↦ rw (add_record, e) (skipped (λ i. refl))
        | inl e ↦
            elim (Bool-cases
              (not a.record_enabled || not info.record_enabled || is_too_frequent r info)) [
                | inl f ↦
                    rw (add_record, e, f)
                      (skipped (λ i. find_or-assign new_info k i info m ∙ same_info k i a))
                | inr f ↦
                    rw (add_record, e, f)
                      (handed
                        (λ i.
                          find_or-assign new_info k i (accepted r info) m ∙ accepted_info k i r a)
                        (ground (arith, f)))
              ]
      ]

  -- The topic `i` of an action has the interval `n` and took its last record at `last`.
  abbrev IsAt : ℕ → ℕ → ℕ → RecordAction V → Type 0
  IsAt i n last a = ((info_of i a).sample_interval ≡ n) × ((info_of i a).last_timestamp ≡ last)

  abbrev Next : ℕ → ℕ → List (OneRecord V) → Type 0
  Next i n rs =
      (b : RecordAction V) (last : ℕ)
      → IsAt i n last b
      → All (λ s. last ≤ s.log_timestamp) rs
      → Spaced i n last (posted rs b)

  long_enough :
      (i n last : ℕ) (r : OneRecord V) (a : RecordAction V)
      → 0 < n
      → IsAt i n last a
      → last ≤ r.log_timestamp
      → r.log_timestamp < u64_mod
      → is_too_frequent r (info_of r.topic_index a) ≡ false
      → (r.topic_index == i) ≡ true
      → last + n ≤ r.log_timestamp
  long_enough i n last r a z (en, el) h u f e =
      let here =
        subst (λ k. is_too_frequent r (info_of k a) ≡ false) ((==_iff r.topic_index i).0 e) f in
      let gap : sub64 r.log_timestamp last ≡ r.log_timestamp - last = omega (arith, h, u) in
      let far : ltb (r.log_timestamp - last) n ≡ false = ground (arith, here, en, el, gap, z) in
      ground (arith, far, h)

  step-Spaced :
      (i n last : ℕ) (r : OneRecord V) (rs : List (OneRecord V)) (a : RecordAction V)
      (v : RecordAction V × Option (OneRecord V))
      → Added r a v
      → 0 < n
      → IsAt i n last a
      → last ≤ r.log_timestamp
      → r.log_timestamp < u64_mod
      → All (λ s. last ≤ s.log_timestamp) rs
      → All (λ s. r.log_timestamp ≤ s.log_timestamp) rs
      → Next i n rs
      → Spaced i n last (with_posted v.1 (posted rs v.0))
  step-Spaced i n last r rs a v (skipped {b} same) z (en, el) h u old new next =
      next b last
        (ap (λ x. x.sample_interval) (same i) ∙ en, ap (λ x. x.last_timestamp) (same i) ∙ el) old
  step-Spaced i n last r rs a v (handed {b} same f) z (en, el) h u old new next = (
    long_enough i n last r a z (en, el) h u f,
    elim (Bool-cases (r.topic_index == i)) [
      | inl e ↦
          let info = rw e at (same i) in
          rw e (
            next b r.log_timestamp
              (ap (λ x. x.sample_interval) info ∙ en, ap (λ x. x.last_timestamp) info) new)
      | inr e ↦
          let info = rw e at (same i) in
          rw e (
            next b last
              (ap (λ x. x.sample_interval) info ∙ en, ap (λ x. x.last_timestamp) info ∙ el) old)
    ],
  )

  -- Of records in the order of their times, `AddRecord` hands to the executor those of a topic with a
  -- sample interval at least that interval apart, and the first of them at least so after the record
  -- that the topic took last, whatever comes of other topics in between.
  pub posted-Spaced :
      (i n : ℕ) (rs : List (OneRecord V)) (a : RecordAction V)
      → 0 < n
      → (info_of i a).sample_interval ≡ n
      → IsSorted rs
      → All (λ s. s.log_timestamp < u64_mod) rs
      → All (λ s. (info_of i a).last_timestamp ≤ s.log_timestamp) rs
      → Spaced i n (info_of i a).last_timestamp (posted rs a)
  unfolding posted
  posted-Spaced i n rs a z e s u old = spaced rs s u a (info_of i a).last_timestamp (e, refl) old
    where
      spaced :
          (qs : List (OneRecord V))
          → IsSorted qs
          → All (λ q. q.log_timestamp < u64_mod) qs
          → Next i n qs
      spaced [] s u b last at old = tt
      spaced (r ∷ qs) s u b last at old =
          step-Spaced i n last r qs b (add_record r b) (add_record-Added r b) z at old.0 u.0 old.1
            s.0 (spaced qs s.1 u.1)
