-- ===== src/Record/Caching.antt =====
-- record_action.cc: what the two caches hold of the records that came.
use aim_rt.Prelude.{
  ℕ, ◌+◌, ◌-◌, ◌≤◌, ◌<◌, ◌≡◌, refl, sym, ap, subst, ◌∙◌, true, false, List, [], ◌∷◌, ◌++◌, nat_eq,
  ltb, All, All-append, All-left, All-right, arith, Bool-cases, inl, inr, append_assoc, append-nil,
}
use aim_rt.Record.Files.{OneRecord}
use aim_rt.Record.{RecordAction, u64_mod, sub64, begin_timestamp, cache_record}
use aim_rt.Record.Searching.{IsSorted}

sub64-small : (a b : ℕ) → b ≤ a → a < u64_mod → sub64 a b ≡ a - b
sub64-small a b h k = omega (arith, h, k)

module _ {V : Type 0} where
  -- The records come in one by one.
  unfoldable pub cache_all : List (OneRecord V) → RecordAction V → RecordAction V
  unfolding cache_record
  cache_all [] a = a
  cache_all (r ∷ rs) a = cache_all rs (cache_record r a)

  pub IsSorted-left : (xs ys : List (OneRecord V)) → IsSorted (xs ++ ys) → IsSorted xs
  IsSorted-left [] ys s = tt
  IsSorted-left (x ∷ xs) ys s =
      (All-left (λ t. x.log_timestamp ≤ t.log_timestamp) xs ys s.0, IsSorted-left xs ys s.1)

  pub IsSorted-right : (xs ys : List (OneRecord V)) → IsSorted (xs ++ ys) → IsSorted ys
  IsSorted-right [] ys s = s
  IsSorted-right (x ∷ xs) ys s = IsSorted-right xs ys s.1

  -- Every record of the first part is not after the first one of the second.
  sorted_before :
      (xs : List (OneRecord V)) (y : OneRecord V) (ys : List (OneRecord V))
      → IsSorted (xs ++ (y ∷ ys))
      → All (λ x. x.log_timestamp ≤ y.log_timestamp) xs
  sorted_before [] y ys s = tt
  sorted_before (x ∷ xs) y ys s = (
    (All-right (λ t. x.log_timestamp ≤ t.log_timestamp) xs (y ∷ ys) s.0).0,
    sorted_before xs y ys s.1,
  )

  -- What is cached is the end of what came, and what was dropped is more than the preparation time
  -- older than `now`.
  pub record Kept (now : ℕ) (seen : List (OneRecord V)) (a : RecordAction V) : Type 0 where
    pub dropped : List (OneRecord V)
    pub parts : seen ≡ dropped ++ (a.last_cache ++ a.cur_cache)
    pub old : All (λ r. r.log_timestamp + a.max_preparation_duration_ns < now) dropped

  stale_before :
      (m n now : ℕ) (xs : List (OneRecord V))
      → n + m < now
      → All (λ x. x.log_timestamp ≤ n) xs
      → All (λ x. x.log_timestamp + m < now) xs
  stale_before m n now [] h a = tt
  stale_before m n now (x ∷ xs) h a = (omega (arith, h, a.0), stale_before m n now xs h a.1)

  head_before :
      (cur cs : List (OneRecord V)) (r c : OneRecord V)
      → cur ++ (r ∷ []) ≡ c ∷ cs
      → IsSorted (cur ++ (r ∷ []))
      → c.log_timestamp ≤ r.log_timestamp
  head_before [] cs r c e s =
      let same : r.log_timestamp ≡ c.log_timestamp = ap (λ zs. begin_timestamp zs) e in
      omega (arith, same)
  head_before (x ∷ cur) cs r c e s =
      let same : x.log_timestamp ≡ c.log_timestamp = ap (λ zs. begin_timestamp zs) e in
      omega (arith, same, (sorted_before (x ∷ cur) r [] s).0)

  with_last :
      (cur : List (OneRecord V)) (r : OneRecord V)
      → (c : OneRecord V) × (cs : List (OneRecord V)) × (cur ++ (r ∷ []) ≡ c ∷ cs)
  with_last [] r = (r, [], refl)
  with_last (x ∷ cur) r = (x, cur ++ (r ∷ []), refl)

  -- A record comes; `c` is the first of the current cache with it.
  module _ (now : ℕ) (seen : List (OneRecord V)) (r c : OneRecord V) (cs : List (OneRecord V))
      (a : RecordAction V) (e : a.cur_cache ++ (r ∷ []) ≡ c ∷ cs) (k : Kept now seen a) where
    joined : seen ++ (r ∷ []) ≡ k.dropped ++ (a.last_cache ++ (c ∷ cs))
    joined =
        ap (λ zs. zs ++ (r ∷ [])) k.parts
        ∙ append_assoc k.dropped (a.last_cache ++ a.cur_cache) (r ∷ [])
        ∙ ap (λ zs. k.dropped ++ zs) (append_assoc a.last_cache a.cur_cache (r ∷ []))
        ∙ ap (λ zs. k.dropped ++ (a.last_cache ++ zs)) e

    cached_on :
        ltb a.max_preparation_duration_ns (sub64 r.log_timestamp c.log_timestamp) ≡ false
        → Kept now (seen ++ (r ∷ [])) (cache_record r a)
    unfolding cache_record
    cached_on f =
        rw (cache_record, e, f) (record { dropped = k.dropped; parts = joined; old = k.old })

    caches_swapped :
        ltb a.max_preparation_duration_ns (sub64 r.log_timestamp c.log_timestamp) ≡ true
        → IsSorted (seen ++ (r ∷ []))
        → r.log_timestamp ≤ now
        → now < u64_mod
        → Kept now (seen ++ (r ∷ [])) (cache_record r a)
    unfolding cache_record
    caches_swapped f s h u =
        let here = IsSorted-right k.dropped (a.last_cache ++ (c ∷ cs)) (subst IsSorted joined s) in
        let cur = subst IsSorted (sym e) (IsSorted-right a.last_cache (c ∷ cs) here) in
        let before = head_before a.cur_cache cs r c e cur in
        let gap = sub64-small r.log_timestamp c.log_timestamp before (omega (arith, h, u)) in
        let late : a.max_preparation_duration_ns < r.log_timestamp - c.log_timestamp =
          ground (arith, f, gap) in
        rw (cache_record, e, f)
          (record {
            dropped = k.dropped ++ a.last_cache;
            parts =
                joined
                ∙ sym (append_assoc k.dropped a.last_cache (c ∷ cs))
                ∙ ap (λ zs. (k.dropped ++ a.last_cache) ++ zs) (sym (append-nil (c ∷ cs)));
            old =
                All-append (λ d. d.log_timestamp + a.max_preparation_duration_ns < now) k.dropped
                  a.last_cache k.old
                  (stale_before a.max_preparation_duration_ns c.log_timestamp now a.last_cache
                    (omega (arith, late, h)) (sorted_before a.last_cache c cs here));
          })

  cache_record-Kept :
      (now : ℕ) (seen : List (OneRecord V)) (r : OneRecord V) (a : RecordAction V)
      → IsSorted (seen ++ (r ∷ []))
      → r.log_timestamp ≤ now
      → now < u64_mod
      → Kept now seen a
      → Kept now (seen ++ (r ∷ [])) (cache_record r a)
  cache_record-Kept now seen r a s h u k =
      let (c, cs, e) = with_last a.cur_cache r in
      elim (Bool-cases
        (ltb a.max_preparation_duration_ns (sub64 r.log_timestamp c.log_timestamp))) [
          | inl f ↦ caches_swapped now seen r c cs a e k f s h u
          | inr f ↦ cached_on now seen r c cs a e k f
        ]

  pub cache_all-Kept :
      (now : ℕ) (seen rs : List (OneRecord V)) (a : RecordAction V)
      → IsSorted (seen ++ rs)
      → All (λ r. r.log_timestamp ≤ now) rs
      → now < u64_mod
      → Kept now seen a
      → Kept now (seen ++ rs) (cache_all rs a)
  unfolding cache_all
  cache_all-Kept now seen [] a s h u k = subst (λ zs. Kept now zs a) (sym (append-nil seen)) k
  cache_all-Kept now seen (r ∷ rs) a s (h, hs) u k =
      let same = append_assoc seen (r ∷ []) rs in
      let sorted = subst IsSorted (sym same) s in
      let first =
        cache_record-Kept now seen r a (IsSorted-left (seen ++ (r ∷ [])) rs sorted) h u k in
      subst (λ zs. Kept now zs (cache_all rs (cache_record r a))) same
        (cache_all-Kept now (seen ++ (r ∷ [])) rs (cache_record r a) sorted hs u first)

  -- Nothing but the caches changes.
  cache_record-same :
      (r : OneRecord V) (a : RecordAction V)
      → (l : List (OneRecord V)) × (c : List (OneRecord V)) × (cache_record r a
          ≡ record a { last_cache = l; cur_cache = c })
  unfolding cache_record
  cache_record-same r a =
      let cur = a.cur_cache ++ (r ∷ []) in
      elim (Bool-cases
        (ltb a.max_preparation_duration_ns (sub64 r.log_timestamp (begin_timestamp cur)))) [
          | inl f ↦ (cur, [], rw (cache_record, f) refl)
          | inr f ↦ (a.last_cache, cur, rw (cache_record, f) refl)
        ]

  pub cache_all-same :
      (rs : List (OneRecord V)) (a : RecordAction V)
      → (l : List (OneRecord V)) × (c : List (OneRecord V)) × (cache_all rs a
          ≡ record a { last_cache = l; cur_cache = c })
  unfolding cache_all
  cache_all-same [] a = (a.last_cache, a.cur_cache, refl)
  cache_all-same (r ∷ rs) a =
      let (l, c, e) = cache_record-same r a in
      let (l', c', e') = cache_all-same rs (cache_record r a) in
      (l', c', e' ∙ ap (λ (b : RecordAction V). record b { last_cache = l'; cur_cache = c' }) e)
