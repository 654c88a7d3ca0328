-- ===== src/Util/Strings/Trimming.antt =====
-- string_util.h: the two overloads of `Trim`.
use aim_rt.Prelude.{
  ℕ, suc, ◌≡◌, refl, sym, ap, subst, ◌∙◌, false, List, [], ◌∷◌, ◌++◌, none, some, nat_eq, ◌==◌,
  length, take, drop, replicate, if◌then◌else◌, arith, Option-cases, Bool-cases, inl, inr,
  append_assoc,
}
use aim_rt.Util.Strings.{find_first_not_space, find_last_not_space, trim, trim_view}

-- Texts that end, or begin, with another byte than a space, or are empty.
abbrev pub EndsSolid : List ℕ → Type 0
EndsSolid [] = Unit {0}
EndsSolid (x ∷ []) = (x == 32) ≡ false
EndsSolid (x ∷ y ∷ ys) = EndsSolid (y ∷ ys)

abbrev pub StartsSolid : List ℕ → Type 0
StartsSolid [] = Unit {0}
StartsSolid (x ∷ xs) = (x == 32) ≡ false

-- What is kept up to the last byte that is no space, and from the first one on.
abbrev pub cut_end : List ℕ → List ℕ
cut_end s = elim (find_last_not_space s) [ none ↦ [] | some i ↦ take (suc i) s ]

abbrev pub cut_start : List ℕ → List ℕ
cut_start s = elim (find_first_not_space s) [ none ↦ [] | some i ↦ drop i s ]

find_last-later :
    (x : ℕ) (xs : List ℕ) (i : ℕ)
    → find_last_not_space xs ≡ some i
    → cut_end (x ∷ xs) ≡ x ∷ cut_end xs
unfolding find_last_not_space
find_last-later x xs i e = rw (cut_end, find_last_not_space, e) refl

find_last-here :
    (x : ℕ) (xs : List ℕ)
    → find_last_not_space xs ≡ none
    → cut_end (x ∷ xs) ≡ (if x == 32 then [] else x ∷ [])
unfolding find_last_not_space
find_last-here x xs e = elim (Bool-cases (x == 32)) [
  | inl f ↦ rw (cut_end, find_last_not_space, e, f) refl
  | inr f ↦ rw (cut_end, find_last_not_space, e, f) refl
]

find_last-none : (s : List ℕ) → find_last_not_space s ≡ none → cut_end s ≡ []
find_last-none s e = rw (cut_end, e) refl

find_first-here :
    (x : ℕ) (xs : List ℕ) → cut_start (x ∷ xs) ≡ (if x == 32 then cut_start xs else x ∷ xs)
unfolding find_first_not_space
find_first-here x xs = elim (Bool-cases (x == 32)) [
  | inr f ↦ rw (cut_start, find_first_not_space, f) refl
  | inl f ↦ elim (Option-cases (find_first_not_space xs)) [
    | inl e ↦ rw (cut_start, find_first_not_space, f, e) refl
    | inr (i, e) ↦ rw (cut_start, find_first_not_space, f, e) refl
  ]
]

-- `c` is `s` without spaces at the end, or at the start.
abbrev EndCut : List ℕ → List ℕ → Type 0
EndCut s c = (m : ℕ) × (s ≡ c ++ replicate m 32) × EndsSolid c

abbrev StartCut : List ℕ → List ℕ → Type 0
StartCut s c = (n : ℕ) × (s ≡ replicate n 32 ++ c) × StartsSolid c

EndsSolid-cons : (x y : ℕ) (ys : List ℕ) → EndsSolid (y ∷ ys) → EndsSolid (x ∷ y ∷ ys)
EndsSolid-cons x y ys h = h

longer-EndCut :
    (x y : ℕ) (ys c : List ℕ) (i : ℕ)
    → c ≡ take (suc i) (y ∷ ys)
    → EndCut (y ∷ ys) c
    → EndCut (x ∷ y ∷ ys) (x ∷ c)
longer-EndCut x y ys [] i e h = cc
longer-EndCut x y ys (d ∷ ds) i e (m, same, solid) = (m, ap (λ zs. x ∷ zs) same, solid)

cut_end-EndCut : (s : List ℕ) → EndCut s (cut_end s)
cut_end-EndCut [] = unfold find_last_not_space in (0, refl, tt)
cut_end-EndCut (x ∷ []) =
    let here = find_last-here x [] (unfold find_last_not_space in refl) in
    subst (EndCut (x ∷ [])) (sym here) (elim (Bool-cases (x == 32)) [
      | inl e ↦ rw e (1, ap (λ k. k ∷ []) (ground (arith, e)), tt)
      | inr e ↦ rw e (0, refl, e)
    ])
cut_end-EndCut (x ∷ y ∷ ys) = elim (Option-cases (find_last_not_space (y ∷ ys))) [
  | inr (i, e) ↦
      subst (EndCut (x ∷ y ∷ ys)) (sym (find_last-later x (y ∷ ys) i e))
        (longer-EndCut x y ys (cut_end (y ∷ ys)) i (rw (cut_end, e) refl) (cut_end-EndCut (y ∷ ys)))
  | inl e ↦
      let (m, same, solid) =
        subst (EndCut (y ∷ ys)) (find_last-none (y ∷ ys) e) (cut_end-EndCut (y ∷ ys)) in
      subst (EndCut (x ∷ y ∷ ys)) (sym (find_last-here x (y ∷ ys) e)) (elim (Bool-cases (x == 32)) [
        | inl f ↦ let blank : x ≡ 32 = ground (arith, f) in rw f (suc m, rw (same, blank) refl, tt)
        | inr f ↦ rw f (m, ap (λ zs. x ∷ zs) same, f)
      ])
]

cut_start-StartCut : (s : List ℕ) → StartCut s (cut_start s)
cut_start-StartCut [] = unfold find_first_not_space in (0, refl, tt)
cut_start-StartCut (x ∷ xs) =
    let (n, same, solid) = cut_start-StartCut xs in
    subst (StartCut (x ∷ xs)) (sym (find_first-here x xs)) (elim (Bool-cases (x == 32)) [
      | inr e ↦ rw e (0, refl, e)
      | inl e ↦
          let blank : x ≡ 32 = ground (arith, e) in
          rw e (
            suc n,
            ap (λ zs. x ∷ zs) same ∙ ap (λ z. z ∷ (replicate n 32 ++ cut_start xs)) blank,
            solid,
          )
    ])

EndsSolid-later : (xs ys : List ℕ) → EndsSolid (xs ++ ys) → EndsSolid ys
EndsSolid-later [] ys h = h
EndsSolid-later (x ∷ []) [] h = tt
EndsSolid-later (x ∷ []) (y ∷ ys) h = h
EndsSolid-later (x ∷ z ∷ xs) ys h = EndsSolid-later (z ∷ xs) ys h

trim-cuts : (x : ℕ) (xs : List ℕ) → trim (x ∷ xs) ≡ cut_start (cut_end (x ∷ xs))
unfolding trim
trim-cuts x xs = refl

drop_all : (s : List ℕ) → drop (length s) s ≡ []
drop_all [] = refl
drop_all (x ∷ xs) = drop_all xs

view_end :
    (s : List ℕ) → take (elim (find_last_not_space s) [ none ↦ 0 | some i ↦ suc i ]) s ≡ cut_end s
view_end s = elim (Option-cases (find_last_not_space s)) [
  | inl e ↦ rw (cut_end, e) refl
  | inr (i, e) ↦ rw (cut_end, e) refl
]

view_start :
    (s : List ℕ)
    → drop (elim (find_first_not_space s) [ none ↦ length s | some i ↦ i ]) s ≡ cut_start s
view_start s = elim (Option-cases (find_first_not_space s)) [
  | inl e ↦ rw (cut_start, e) (drop_all s)
  | inr (i, e) ↦ rw (cut_start, e) refl
]

-- The two overloads of `Trim` give the same text, which neither starts nor ends with a space; with
-- some spaces before it and some after it, it is the text that was given.
pub trim-exact :
    (s : List ℕ)
    → (trim_view s ≡ trim s)
      × StartsSolid (trim s)
      × EndsSolid (trim s)
      × (n : ℕ) × (m : ℕ) × (s ≡ replicate n 32 ++ (trim s ++ replicate m 32))
unfolding trim trim_view
trim-exact [] = (refl, tt, tt, 0, 0, refl)
trim-exact (x ∷ xs) =
    let s = x ∷ xs in
    let (m, same, solid) = cut_end-EndCut s in
    let (n, same', starts) = cut_start-StartCut (cut_end s) in
    (
      ap (λ k. drop (elim (find_first_not_space k) [ none ↦ length k | some i ↦ i ]) k) (view_end s)
          ∙ view_start (cut_end s),
      starts,
      EndsSolid-later (replicate n 32) (cut_start (cut_end s)) (subst EndsSolid same' solid),
      n,
      m,
      same
          ∙ ap (λ k. k ++ replicate m 32) same'
          ∙ append_assoc (replicate n 32) (cut_start (cut_end s)) (replicate m 32),
    )
