-- ===== src/Util/Strings/Versions/Exact.antt =====
-- string_util.h: which of two versions `CmpVersion` takes for the greater one.
use aim_rt.Prelude.{
  ℕ, ◌<◌, ◌≡◌, refl, sym, ap, ◌∙◌, ◌⊎◌, inl, inr, true, Bool-cases, List, [], ◌∷◌, ◌++◌, Option,
  none, some, ltb, arith,
}
use aim_rt.Util.Strings.{split_to_vec}
use aim_rt.Util.Strings.Versions.{
  Order, below, same, above, invalid, compare_numbers, cmp_details, cmp_version, dot,
}

abbrev pub flipped : Order → Order
flipped below = above
flipped same = same
flipped above = below
flipped invalid = invalid

flipped-compare :
    (p q : Option ℕ) (r s : Order)
    → s ≡ flipped r
    → compare_numbers q p s ≡ flipped (compare_numbers p q r)
flipped-compare none none r s e = refl
flipped-compare none (some n) r s e = refl
flipped-compare (some m) none r s e = refl
flipped-compare (some m) (some n) r s e = ground (arith, e)

flipped-details :
    (number : List ℕ → Option ℕ) (xs ys : List (List ℕ))
    → cmp_details number ys xs ≡ flipped (cmp_details number xs ys)
unfolding cmp_details
flipped-details number [] [] = refl
flipped-details number [] (y ∷ ys) = refl
flipped-details number (x ∷ xs) [] = refl
flipped-details number (x ∷ xs) (y ∷ ys) =
    flipped-compare (number x) (number y) (cmp_details number xs ys) (cmp_details number ys xs)
      (flipped-details number xs ys)

-- The pieces denote the numbers.
abbrev pub Denotes : (List ℕ → Option ℕ) → List (List ℕ) → List ℕ → Type 0
Denotes number [] [] = Unit {0}
Denotes number [] (n ∷ ns) = ⊥
Denotes number (x ∷ xs) [] = ⊥
Denotes number (x ∷ xs) (n ∷ ns) = (number x ≡ some n) × Denotes number xs ns

-- Where the first pieces end, or differ in what they denote.
abbrev pub Smaller : (List ℕ → Option ℕ) → List (List ℕ) → List (List ℕ) → Type 0
Smaller number xs [] = ⊥
Smaller number [] (y ∷ ys) = Unit {0}
Smaller number (x ∷ xs) (y ∷ ys) =
    (m : ℕ) × (n : ℕ) × (number x ≡ some m) × (number y ≡ some n) × (m < n)

-- Lexicographic order: after pieces that denote the same numbers.
pub record Before (number : List ℕ → Option ℕ) (xs ys : List (List ℕ)) : Type 0 where
  pub front : List (List ℕ)
  pub front' : List (List ℕ)
  pub tail : List (List ℕ)
  pub tail' : List (List ℕ)
  pub shared : List ℕ
  pub parts : xs ≡ front ++ tail
  pub parts' : ys ≡ front' ++ tail'
  pub denotes : Denotes number front shared
  pub denotes' : Denotes number front' shared
  pub smaller : Smaller number tail tail'

compare-below :
    (p q : Option ℕ) (later : Order)
    → compare_numbers p q later ≡ below
    → (m : ℕ) × (n : ℕ) × (p ≡ some m) × (q ≡ some n) × ((m < n) ⊎ ((m ≡ n) × (later ≡ below)))
compare-below none q later h = cc
compare-below (some m) none later h = cc
compare-below (some m) (some n) later h = elim (Bool-cases (ltb m n)) [
  | inl e ↦ (m, n, refl, refl, inl (ground (arith, e)))
  | inr e ↦ (m, n, refl, refl, inr (ground (arith, e, h), ground (arith, e, h)))
]

compare-same :
    (p q : Option ℕ) (later : Order)
    → compare_numbers p q later ≡ same
    → (n : ℕ) × (p ≡ some n) × (q ≡ some n) × (later ≡ same)
compare-same none q later h = cc
compare-same (some m) none later h = cc
compare-same (some m) (some n) later h =
    let e : n ≡ m = ground (arith, h) in (m, refl, ap some e, ground (arith, h))

compare_equal :
    (p q : Option ℕ) (n : ℕ) (later : Order)
    → p ≡ some n
    → q ≡ some n
    → compare_numbers p q later ≡ later
compare_equal p q n later e f = rw (e, f) (ground arith)

later-Before :
    (number : List ℕ → Option ℕ) (x y : List ℕ) (n : ℕ) (xs ys : List (List ℕ))
    → number x ≡ some n
    → number y ≡ some n
    → Before number xs ys
    → Before number (x ∷ xs) (y ∷ ys)
later-Before number x y n xs ys e f b = record {
  front = x ∷ b.front;
  front' = y ∷ b.front';
  tail = b.tail;
  tail' = b.tail';
  shared = n ∷ b.shared;
  parts = ap (λ zs. x ∷ zs) b.parts;
  parts' = ap (λ zs. y ∷ zs) b.parts';
  denotes = (e, b.denotes);
  denotes' = (f, b.denotes');
  smaller = b.smaller;
}

at_once :
    (number : List ℕ → Option ℕ) (xs ys : List (List ℕ))
    → Smaller number xs ys
    → Before number xs ys
at_once number xs ys s = record {
  front = [];
  front' = [];
  tail = xs;
  tail' = ys;
  shared = [];
  parts = refl;
  parts' = refl;
  denotes = tt;
  denotes' = tt;
  smaller = s;
}

below-Before :
    (number : List ℕ → Option ℕ) (xs ys : List (List ℕ))
    → cmp_details number xs ys ≡ below
    → Before number xs ys
unfolding cmp_details
below-Before number [] [] h = cc
below-Before number [] (y ∷ ys) h = at_once number [] (y ∷ ys) tt
below-Before number (x ∷ xs) [] h = cc
below-Before number (x ∷ xs) (y ∷ ys) h =
    let (m, n, e, f, r) = compare-below (number x) (number y) (cmp_details number xs ys) h in
    elim r [
      | inl lt ↦ at_once number (x ∷ xs) (y ∷ ys) (m, n, e, f, lt)
      | inr (eq, later) ↦
          later-Before number x y m xs ys e (f ∙ ap some (sym eq)) (below-Before number xs ys later)
    ]

Smaller-below :
    (number : List ℕ → Option ℕ) (xs ys : List (List ℕ))
    → Smaller number xs ys
    → cmp_details number xs ys ≡ below
unfolding cmp_details
Smaller-below number [] [] s = absurd s
Smaller-below number (x ∷ xs) [] s = absurd s
Smaller-below number [] (y ∷ ys) s = refl
Smaller-below number (x ∷ xs) (y ∷ ys) (m, n, e, f, lt) = rw (e, f) (ground (arith, lt))

after_shared :
    (number : List ℕ → Option ℕ) (front front' tail tail' : List (List ℕ)) (shared : List ℕ)
    → Denotes number front shared
    → Denotes number front' shared
    → cmp_details number (front ++ tail) (front' ++ tail') ≡ cmp_details number tail tail'
unfolding cmp_details
after_shared number [] [] tail tail' [] d d' = refl
after_shared number [] (y ∷ front') tail tail' [] d d' = absurd d'
after_shared number [] front' tail tail' (n ∷ ns) d d' = absurd d
after_shared number (x ∷ front) front' tail tail' [] d d' = absurd d
after_shared number (x ∷ front) [] tail tail' (n ∷ ns) d d' = absurd d'
after_shared number (x ∷ front) (y ∷ front') tail tail' (n ∷ ns) (e, d) (f, d') =
    compare_equal (number x) (number y) n (cmp_details number (front ++ tail) (front' ++ tail')) e f
    ∙ after_shared number front front' tail tail' ns d d'

Before-below :
    (number : List ℕ → Option ℕ) (xs ys : List (List ℕ))
    → Before number xs ys
    → cmp_details number xs ys ≡ below
Before-below number xs ys b =
    rw (b.parts, b.parts')
      (after_shared number b.front b.front' b.tail b.tail' b.shared b.denotes b.denotes'
        ∙ Smaller-below number b.tail b.tail' b.smaller)

same-Denotes :
    (number : List ℕ → Option ℕ) (xs ys : List (List ℕ))
    → cmp_details number xs ys ≡ same
    → (ns : List ℕ) × Denotes number xs ns × Denotes number ys ns
unfolding cmp_details
same-Denotes number [] [] h = ([], tt, tt)
same-Denotes number [] (y ∷ ys) h = cc
same-Denotes number (x ∷ xs) [] h = cc
same-Denotes number (x ∷ xs) (y ∷ ys) h =
    let (n, e, f, later) = compare-same (number x) (number y) (cmp_details number xs ys) h in
    let (ns, d, d') = same-Denotes number xs ys later in (n ∷ ns, (e, d), (f, d'))

Denotes-same :
    (number : List ℕ → Option ℕ) (xs ys : List (List ℕ)) (ns : List ℕ)
    → Denotes number xs ns
    → Denotes number ys ns
    → cmp_details number xs ys ≡ same
unfolding cmp_details
Denotes-same number [] [] ns d d' = refl
Denotes-same number [] (y ∷ ys) [] d d' = absurd d'
Denotes-same number [] (y ∷ ys) (n ∷ ns) d d' = absurd d
Denotes-same number (x ∷ xs) ys [] d d' = absurd d
Denotes-same number (x ∷ xs) [] (n ∷ ns) d d' = absurd d'
Denotes-same number (x ∷ xs) (y ∷ ys) (n ∷ ns) (e, d) (f, d') =
    compare_equal (number x) (number y) n (cmp_details number xs ys) e f
    ∙ Denotes-same number xs ys ns d d'

-- `CmpVersion` compares the numbers that the pieces between the dots denote, one by one. It says that
-- the first version is the smaller one exactly when, after pieces that denote the same numbers, the
-- first version ends and the second does not, or the next piece of the first denotes a smaller number
-- than that of the second; that it is the greater one exactly when the second is smaller in this sense;
-- and that they are the same exactly when their pieces denote the same numbers. Otherwise it throws.
pub cmp_version-exact :
    (number : List ℕ → Option ℕ) (a b : List ℕ)
    → let xs = split_to_vec a dot true true in
      let ys = split_to_vec b dot true true in
      let same_numbers = (ns : List ℕ) × Denotes number xs ns × Denotes number ys ns in
      ((cmp_version number a b ≡ below → Before number xs ys)
        × (Before number xs ys → cmp_version number a b ≡ below))
      × ((cmp_version number a b ≡ above → Before number ys xs)
          × (Before number ys xs → cmp_version number a b ≡ above))
      × ((cmp_version number a b ≡ same → same_numbers)
          × (same_numbers → cmp_version number a b ≡ same))
unfolding cmp_version
cmp_version-exact number a b =
    let xs = split_to_vec a dot true true in
    let ys = split_to_vec b dot true true in
    (
      (below-Before number xs ys, Before-below number xs ys),
      (
        λ h. below-Before number ys xs (flipped-details number xs ys ∙ ap flipped h),
        λ h. flipped-details number ys xs ∙ ap flipped (Before-below number ys xs h),
      ),
      (same-Denotes number xs ys, λ h. Denotes-same number xs ys h.0 h.1 h.2),
    )
