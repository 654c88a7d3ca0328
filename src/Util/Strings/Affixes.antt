-- ===== src/Util/Strings/Affixes.antt =====
-- string_util.h: `StartsWith` and `EndsWith`. `tolower` belongs to the C library and is a parameter.
use aim_rt.Prelude.{
  ℕ, suc, ◌-◌, ◌<◌, ◌≡◌, ◌↔◌, inl, inr, refl, sym, ap, ◌∙◌, Bool, true, false, ◌||◌, List, [], ◌∷◌,
  ◌++◌, map, nat_eq, ◌==◌, ltb, if◌then◌else◌, length, take, drop, arith, Bool-cases, length-append,
  take-drop, drop-length-append, length-take, append-nil, take-length-append,
}

-- The loops over the bytes of the pattern, on the text from the place where it is to stand.
abbrev pub same_bytes : (ℕ → ℕ) → List ℕ → List ℕ → Bool
same_bytes fold [] str = true
same_bytes fold (p ∷ ps) [] = false
same_bytes fold (p ∷ ps) (c ∷ str) =
    let rest = same_bytes fold ps str in if fold p == fold c then rest else false

abbrev pub fold_of : (ℕ → ℕ) → Bool → ℕ → ℕ
fold_of lower ignore_case c = if ignore_case then lower c else c

unfoldable pub starts_with : (ℕ → ℕ) → List ℕ → List ℕ → Bool → Bool
starts_with lower str pattern ignore_case =
    if ltb (length str) (length pattern) || length pattern == 0
    then false
    else same_bytes (fold_of lower ignore_case) pattern str

unfoldable pub ends_with : (ℕ → ℕ) → List ℕ → List ℕ → Bool → Bool
ends_with lower str pattern ignore_case =
    if ltb (length str) (length pattern) || length pattern == 0
    then false
    else same_bytes (fold_of lower ignore_case) pattern (drop (length str - length pattern) str)

-- The part `middle` of a text is the pattern, which is not empty, after `fold`.
pub record Found (fold : ℕ → ℕ) (pattern middle : List ℕ) : Type 0 where
  pub some_bytes : 0 < length pattern
  pub same : map fold middle ≡ map fold pattern

length-map : (f : ℕ → ℕ) (xs : List ℕ) → length (map f xs) ≡ length xs
length-map f [] = refl
length-map f (x ∷ xs) = ap suc (length-map f xs)

same_bytes-map :
    (fold : ℕ → ℕ) (ps str : List ℕ)
    → same_bytes fold ps str ≡ true
    → map fold (take (length ps) str) ≡ map fold ps
same_bytes-map fold [] str h = refl
same_bytes-map fold (p ∷ ps) [] h = cc
same_bytes-map fold (p ∷ ps) (c ∷ str) h =
    let first : fold c ≡ fold p = ground (arith, h) in
    let rest : same_bytes fold ps str ≡ true = ground (arith, h) in
    rw (first, same_bytes-map fold ps str rest) refl

map-same_bytes :
    (fold : ℕ → ℕ) (ps middle back : List ℕ)
    → map fold middle ≡ map fold ps
    → same_bytes fold ps (middle ++ back) ≡ true
map-same_bytes fold [] middle back h = refl
map-same_bytes fold (p ∷ ps) [] back h = cc
map-same_bytes fold (p ∷ ps) (c ∷ middle) back h =
    let first : fold p ≡ fold c = cc in
    let rest : map fold middle ≡ map fold ps = cc in
    ground (arith, first, map-same_bytes fold ps middle back rest)

length-Found :
    (fold : ℕ → ℕ) (ps middle : List ℕ) → Found fold ps middle → length middle ≡ length ps
length-Found fold ps middle h = sym (length-map fold middle) ∙ ap length h.same ∙ length-map fold ps

module _ (lower : ℕ → ℕ) (str ps : List ℕ) (ignore_case : Bool) where
  abbrev fold : ℕ → ℕ
  fold = fold_of lower ignore_case

  -- The guard that both functions begin with.
  abbrev too_short : Bool
  too_short = ltb (length str) (length ps) || length ps == 0

  starts_with-parts :
      starts_with lower str ps ignore_case ≡ true
      → (middle : List ℕ) × (back : List ℕ) × (str ≡ middle ++ back) × Found fold ps middle
  unfolding starts_with
  starts_with-parts h = elim (Bool-cases too_short) [
    | inl e ↦ let no : false ≡ true = rw (starts_with, e) at h in cc
    | inr e ↦
        let same : same_bytes fold ps str ≡ true = rw (starts_with, e) at h in
        (
          take (length ps) str,
          drop (length ps) str,
          sym (take-drop (length ps) str),
          record { some_bytes = ground (arith, e); same = same_bytes-map fold ps str same },
        )
  ]

  starts_with-there :
      (middle back : List ℕ)
      → str ≡ middle ++ back
      → Found fold ps middle
      → starts_with lower str ps ignore_case ≡ true
  unfolding starts_with
  starts_with-there middle back e h =
      let fits : too_short ≡ false = ground (
        arith,
        h.some_bytes,
        ap length e,
        length-append middle back,
        length-Found fold ps middle h,
      ) in
      rw (starts_with, fits, e) (map-same_bytes fold ps middle back h.same)

  ends_with-parts :
      ends_with lower str ps ignore_case ≡ true
      → (front : List ℕ) × (middle : List ℕ) × (str ≡ front ++ middle) × Found fold ps middle
  unfolding ends_with
  ends_with-parts h = elim (Bool-cases too_short) [
    | inl e ↦ let no : false ≡ true = rw (ends_with, e) at h in cc
    | inr e ↦
        let n = length str - length ps in
        let front = take n str in
        let middle = drop n str in
        let same : same_bytes fold ps middle ≡ true = rw (ends_with, e) at h in
        let whole = take-drop n str in
        let size : length ps ≡ length middle = ground (
          arith,
          e,
          length-take n str (omega arith),
          ap length whole,
          length-append front middle,
        ) in
        let all : take (length ps) middle ≡ middle =
          ap (λ k. take k middle) size
          ∙ ap (λ zs. take (length middle) zs) (sym (append-nil middle))
          ∙ take-length-append middle [] in
        let found = ap (map fold) (sym all) ∙ same_bytes-map fold ps middle same in
        (front, middle, sym whole, record { some_bytes = ground (arith, e); same = found })
  ]

  ends_with-there :
      (front middle : List ℕ)
      → str ≡ front ++ middle
      → Found fold ps middle
      → ends_with lower str ps ignore_case ≡ true
  unfolding ends_with
  ends_with-there front middle e h =
      let size = length-Found fold ps middle h in
      let sum = length-append front middle in
      let fits : too_short ≡ false = ground (arith, h.some_bytes, ap length e, sum, size) in
      let skip : length str - length ps ≡ length front = omega (arith, ap length e, sum, size) in
      let cut : drop (length str - length ps) str ≡ middle =
        ap (λ n. drop n str) skip ∙ ap (drop (length front)) e ∙ drop-length-append front middle in
      let same = map-same_bytes fold ps middle [] h.same in
      rw (ends_with, fits, cut) (rw (append-nil middle) at same)

-- In both modes `StartsWith` and `EndsWith` are true exactly when the pattern is not empty and the
-- text begins, or ends, with a part that is equal to the pattern, byte for byte after the folding of
-- the mode.
pub starts_and_ends-Found :
    (lower : ℕ → ℕ) (str pattern : List ℕ) (ignore_case : Bool)
    → ((starts_with lower str pattern ignore_case ≡ true) ↔ (
        (middle : List ℕ) × (back : List ℕ) × (str ≡ middle ++ back)
        × Found (fold_of lower ignore_case) pattern middle))
      × ((ends_with lower str pattern ignore_case ≡ true) ↔ (
          (front : List ℕ) × (middle : List ℕ) × (str ≡ front ++ middle)
          × Found (fold_of lower ignore_case) pattern middle))
starts_and_ends-Found lower str ps ic = (
  (starts_with-parts lower str ps ic, λ (m, b, e, h). starts_with-there lower str ps ic m b e h),
  (ends_with-parts lower str ps ic, λ (a, m, e, h). ends_with-there lower str ps ic a m e h),
)
