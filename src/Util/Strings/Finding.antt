-- ===== src/Util/Strings/Finding.antt =====
-- string_util.h: where a separator is found.
use aim_rt.Prelude.{
  ℕ, zero, suc, ◌+◌, ◌≡◌, refl, sym, ap, ◌∙◌, true, false, List, [], ◌∷◌, ◌++◌, Option, none, some,
  nat_eq, length, take, drop, take-drop, arith, Bool-cases, inl, inr,
}
use aim_rt.Util.Strings.{is_prefix, find_sub, next_index}

is_prefix-drop : (sep src : List ℕ) → is_prefix sep src ≡ true → sep ++ drop (length sep) src ≡ src
is_prefix-drop [] src h = refl
is_prefix-drop (a ∷ bs) [] h = cc
is_prefix-drop (a ∷ bs) (x ∷ xs) h =
    let same : a ≡ x = ground (arith, h) in rw (same, is_prefix-drop bs xs (ground (arith, h))) refl

next_index-some :
    (o : Option ℕ) (i : ℕ) → next_index o ≡ some i → (j : ℕ) × (o ≡ some j) × (i ≡ suc j)
next_index-some none i h = cc
next_index-some (some j) i h = (j, refl, cc)

at_start :
    (sep src : List ℕ) (i : ℕ)
    → is_prefix sep src ≡ true
    → some 0 ≡ some i
    → take i src ++ (sep ++ drop (i + length sep) src) ≡ src
at_start sep src i h e =
    let zero_is : i ≡ 0 = ground (arith, e) in
    let sum : 0 + length sep ≡ length sep = omega arith in
    rw (zero_is, sum) (is_prefix-drop sep src h)

pub find_sub-here : (sep src : List ℕ) → is_prefix sep src ≡ true → find_sub sep src ≡ some 0
unfolding find_sub
find_sub-here sep [] e = rw (find_sub, e) refl
find_sub-here sep (x ∷ xs) e = rw (find_sub, e) refl

pub find_sub-later :
    (sep : List ℕ) (x : ℕ) (xs : List ℕ)
    → is_prefix sep (x ∷ xs) ≡ false
    → find_sub sep (x ∷ xs) ≡ next_index (find_sub sep xs)
unfolding find_sub
find_sub-later sep x xs e = rw (find_sub, e) refl

pub find_sub-nil : (sep : List ℕ) → is_prefix sep [] ≡ false → find_sub sep [] ≡ none
unfolding find_sub
find_sub-nil sep e = rw (find_sub, e) refl

-- The separator stands where it is found.
pub find_sub-take :
    (sep src : List ℕ) (i : ℕ)
    → find_sub sep src ≡ some i
    → take i src ++ (sep ++ drop (i + length sep) src) ≡ src
find_sub-take sep [] i h = elim (Bool-cases (is_prefix sep [])) [
  | inl e ↦ at_start sep [] i e (sym (find_sub-here sep [] e) ∙ h)
  | inr e ↦ let no = sym (find_sub-nil sep e) ∙ h in cc
]
find_sub-take sep (x ∷ xs) i h = elim (Bool-cases (is_prefix sep (x ∷ xs))) [
  | inl e ↦ at_start sep (x ∷ xs) i e (sym (find_sub-here sep (x ∷ xs) e) ∙ h)
  | inr e ↦
      let (j, f, s) = next_index-some (find_sub sep xs) i (sym (find_sub-later sep x xs e) ∙ h) in
      let sum : suc j + length sep ≡ suc (j + length sep) = omega arith in
      rw (s, sum) (ap (λ zs. x ∷ zs) (find_sub-take sep xs j f))
]

-- A prefix of a beginning is a prefix of the whole.
is_prefix-append : (sep xs ys : List ℕ) → is_prefix sep xs ≡ true → is_prefix sep (xs ++ ys) ≡ true
is_prefix-append [] xs ys h = refl
is_prefix-append (a ∷ bs) [] ys h = cc
is_prefix-append (a ∷ bs) (x ∷ xs) ys h = ground (arith, h, is_prefix-append bs xs ys)

is_prefix-take :
    (sep src : List ℕ) (i : ℕ) → is_prefix sep src ≡ false → is_prefix sep (take i src) ≡ false
is_prefix-take sep src i h = elim (Bool-cases (is_prefix sep (take i src))) [
  | inr e ↦ e
  | inl e ↦
      let no = is_prefix-append sep (take i src) (drop i src) e in
      let same = ap (is_prefix sep) (take-drop i src) in cc
]

-- It does not stand in the part before.
pub find_sub-before :
    (sep src : List ℕ) (i : ℕ)
    → is_prefix sep [] ≡ false
    → find_sub sep src ≡ some i
    → find_sub sep (take i src) ≡ none
find_sub-before sep src zero z h = find_sub-nil sep z
find_sub-before sep [] (suc i) z h = find_sub-nil sep z
find_sub-before sep (x ∷ xs) (suc i) z h = elim (Bool-cases (is_prefix sep (x ∷ xs))) [
  | inl e ↦ let no = sym (find_sub-here sep (x ∷ xs) e) ∙ h in ground (arith, no)
  | inr e ↦
      let (j, f, s) =
        next_index-some (find_sub sep xs) (suc i) (sym (find_sub-later sep x xs e) ∙ h) in
      find_sub-later sep x (take i xs) (is_prefix-take sep (x ∷ xs) (suc i) e)
      ∙ ap next_index (find_sub-before sep xs i z (f ∙ ap some (omega (arith, s))))
]
