-- ===== src/Record/Searching.antt =====
-- record_action.cc: the binary search of `StartSignalRecord`, and what is written from there on.
use aim_rt.Prelude.{
  ℕ, zero, suc, ◌+◌, ◌-◌, ◌/◌, ◌≤◌, ◌<◌, ◌≡◌, ◌⊎◌, inl, inr, refl, sym, ap, subst, true, false,
  List, [], ◌∷◌, ◌++◌, nat_eq, ltb, if◌then◌else◌, length, drop, All, arith, Bool-cases,
}
use aim_rt.Record.Files.{OneRecord}
use aim_rt.Record.{timestamp_at, search_start}

module _ {V : Type 0} where
  -- In the order of their times.
  abbrev pub IsSorted : List (OneRecord V) → Type 0
  IsSorted [] = Unit {0}
  IsSorted (r ∷ rs) = All (λ s. r.log_timestamp ≤ s.log_timestamp) rs × IsSorted rs

  -- The records that are not older than `begin`.
  abbrev pub window : ℕ → List (OneRecord V) → List (OneRecord V)
  window begin [] = []
  window begin (r ∷ rs) =
      let rest = window begin rs in if ltb r.log_timestamp begin then rest else r ∷ rest

  All-timestamp_at :
      (n : ℕ) (rs : List (OneRecord V)) (i : ℕ)
      → All (λ s. n ≤ s.log_timestamp) rs
      → i < length rs
      → n ≤ timestamp_at rs i
  All-timestamp_at n [] i h k = absurd (omega (arith, k))
  All-timestamp_at n (r ∷ rs) zero h k = h.0
  All-timestamp_at n (r ∷ rs) (suc i) h k = All-timestamp_at n rs i h.1 (omega (arith, k))

  timestamp_at_mono :
      (rs : List (OneRecord V)) (i j : ℕ)
      → IsSorted rs
      → i ≤ j
      → j < length rs
      → timestamp_at rs i ≤ timestamp_at rs j
  timestamp_at_mono [] i j s h k = absurd (omega (arith, k))
  timestamp_at_mono (r ∷ rs) zero zero s h k = omega arith
  timestamp_at_mono (r ∷ rs) zero (suc j) s h k =
      All-timestamp_at r.log_timestamp rs j s.0 (omega (arith, k))
  timestamp_at_mono (r ∷ rs) (suc i) zero s h k = absurd (omega (arith, h))
  timestamp_at_mono (r ∷ rs) (suc i) (suc j) s h k =
      timestamp_at_mono rs i j s.1 (omega (arith, h)) (omega (arith, k))

  -- All before `i` are too old.
  abbrev IsOldBefore : ℕ → List (OneRecord V) → ℕ → Type 0
  IsOldBefore begin rs n = (i : ℕ) → i < n → timestamp_at rs i < begin

  -- It is the last one, or not too old.
  abbrev IsEnough : ℕ → List (OneRecord V) → ℕ → Type 0
  IsEnough begin rs n = (n + 1 ≡ length rs) ⊎ (begin ≤ timestamp_at rs n)

  abbrev Finds : ℕ → List (OneRecord V) → ℕ → Type 0
  Finds begin rs n = (n < length rs) × IsOldBefore begin rs n × IsEnough begin rs n

  search_start-Finds :
      (fuel begin : ℕ) (rs : List (OneRecord V)) (low high : ℕ)
      → IsSorted rs
      → high - low < fuel
      → low ≤ high
      → high < length rs
      → IsOldBefore begin rs low
      → IsEnough begin rs high
      → Finds begin rs (search_start fuel begin rs low high)
  unfolding search_start
  search_start-Finds zero begin rs low high s f l h old enough = absurd (omega (arith, f))
  search_start-Finds (suc fuel) begin rs low high s f l h old enough =
      elim (Bool-cases (ltb low high)) [
        | inr e ↦
            let same : high ≡ low = ground (arith, e, l) in
            rw (search_start, e)
              (omega (arith, h, same), old, subst (IsEnough begin rs) same enough)
        | inl e ↦
            let less : low < high = ground (arith, e) in
            let mid : ℕ = low + (high - low) / 2 in
            let below : mid < high = omega (arith, less) in
            elim (Bool-cases (ltb (timestamp_at rs mid) begin)) [
              | inl g ↦
                  rw (search_start, e, g)
                    (search_start-Finds fuel begin rs (mid + 1) high s (omega (arith, f, less))
                      (omega (arith, below)) h
                      (λ i k. ground (
                        arith,
                        g,
                        timestamp_at_mono rs i mid s (omega (arith, k)) (omega (arith, below, h)),
                      ))
                      enough)
              | inr g ↦
                  rw (search_start, e, g)
                    (search_start-Finds fuel begin rs low mid s (omega (arith, f, less))
                      (omega arith) (omega (arith, below, h)) old (inr (ground (arith, g))))
            ]
      ]

  window-new :
      (begin : ℕ) (rs : List (OneRecord V))
      → All (λ s. begin ≤ s.log_timestamp) rs
      → window begin rs ≡ rs
  window-new begin [] h = refl
  window-new begin (r ∷ rs) h =
      let kept : ltb r.log_timestamp begin ≡ false = ground (arith, h.0) in
      rw (kept, window-new begin rs h.1) refl

  All-weaken :
      (m n : ℕ) (rs : List (OneRecord V))
      → m ≤ n
      → All (λ s. n ≤ s.log_timestamp) rs
      → All (λ s. m ≤ s.log_timestamp) rs
  All-weaken m n [] h a = tt
  All-weaken m n (r ∷ rs) h a = (omega (arith, h, a.0), All-weaken m n rs h a.1)

  -- From the place that is found, the records that are not too old are left, or the last one is
  -- where all are too old.
  abbrev pub Left : ℕ → List (OneRecord V) → List (OneRecord V) → Type 0
  Left begin rs left =
      (left ≡ window begin rs)
      ⊎ ((window begin rs ≡ [])
          × (last : OneRecord V) × (front : List (OneRecord V)) × (left ≡ last ∷ [])
          × (rs ≡ front ++ (last ∷ [])))

  old_head :
      (begin : ℕ) (r : OneRecord V) (rs : List (OneRecord V)) (left : List (OneRecord V))
      → r.log_timestamp < begin
      → Left begin rs left
      → Left begin (r ∷ rs) left
  old_head begin r rs left h (inl e) =
      let old : ltb r.log_timestamp begin ≡ true = ground (arith, h) in inl (rw old e)
  old_head begin r rs left h (inr (none_new, last, front, e, f)) =
      let old : ltb r.log_timestamp begin ≡ true = ground (arith, h) in
      inr (rw old none_new, last, r ∷ front, e, ap (λ zs. r ∷ zs) f)

  drop-Left :
      (begin : ℕ) (rs : List (OneRecord V)) (n : ℕ)
      → IsSorted rs
      → Finds begin rs n
      → Left begin rs (drop n rs)
  drop-Left begin [] n s (h, old, enough) = absurd (omega (arith, h))
  drop-Left begin (r ∷ rs) (suc n) s (h, old, enough) =
      old_head begin r rs (drop n rs) (old 0 (omega arith)) (
        drop-Left begin rs n s.1 (
          omega (arith, h),
          (λ i k. old (suc i) (omega (arith, k))),
          elim enough [ inl e ↦ inl (omega (arith, e)) | inr e ↦ inr e ],
        ))
  drop-Left begin (r ∷ rs) zero s (h, old, inr e) =
      inl (sym (window-new begin (r ∷ rs) (e, All-weaken begin r.log_timestamp rs e s.0)))
  drop-Left begin (r ∷ []) zero s (h, old, inl e) = elim (Bool-cases (ltb r.log_timestamp begin)) [
    | inl g ↦ inr (rw g refl, r, [], refl, refl)
    | inr g ↦ inl (rw g refl)
  ]
  drop-Left begin (r ∷ t ∷ rs) zero s (h, old, inl e) = absurd (omega (arith, e))

  -- The search over the whole of what is cached.
  pub search-Left :
      (begin : ℕ) (rs : List (OneRecord V))
      → IsSorted rs
      → 0 < length rs
      → Left begin rs (drop (search_start (length rs) begin rs 0 (length rs - 1)) rs)
  search-Left begin rs s h =
      drop-Left begin rs (search_start (length rs) begin rs 0 (length rs - 1)) s (
        search_start-Finds (length rs) begin rs 0 (length rs - 1) s (omega (arith, h)) (omega arith)
          (omega (arith, h)) (λ i k. absurd (omega (arith, k))) (inl (omega (arith, h))))
