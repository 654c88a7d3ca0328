-- ===== src/Util/Strings/Replacing/Reference.antt =====
-- string_util.h: the result of `ReplaceString`, by `SplitToVec` and `JoinVec`.
use aim_rt.Prelude.{
  ℕ, suc, ◌+◌, ◌-◌, ◌*◌, ◌<◌, ◌≡◌, refl, sym, ap, ◌∙◌, List, [], ◌∷◌, ◌++◌, Option, some, nat_eq,
  ◌==◌, ltb, true, false, length, replicate, arith, append_assoc, length-append, length-replicate,
  Bool-cases, inl, inr,
}
use aim_rt.Util.Strings.{split_loop, split_to_vec, join_vec}
use aim_rt.Util.Strings.Splitting.{is_empty-false}
use aim_rt.Util.Strings.Replacing.{grown, find_sites, grow_loop, replace_sites, replace_string}
use aim_rt.Util.Strings.Replacing.InPlace.{
  tails, sites_from, later_stops, equal_loop-tails, shrink_loop-tails,
}
use aim_rt.Util.Strings.Replacing.Growing.{Grown, grow_loop-tails}
use aim_rt.Util.Strings.Replacing.Sites.{
  find_sites-Cut, length-sites_from, stops-sites, join_vec-tails,
}

is_empty-true : (xs : List ℕ) → length xs ≡ 0 → xs ≡ []
is_empty-true [] h = refl
is_empty-true (x ∷ xs) h = absurd (omega (arith, h))

grown-Grown :
    (ov nv front : List ℕ) (a p : ℕ) (str : List ℕ) (ys : List (List ℕ))
    → Grown ov nv front 0 a p str ys
    → grown (grow_loop (length ov) nv a (later_stops (length ov) a ys) p str)
      ≡ some (front ++ tails nv ys)
grown-Grown ov nv front a p str ys (left, size, run) = rw (run, is_empty-true left size) refl

-- The three branches, each where its test sends the code.
module _ (ov nv x y : List ℕ) (ys : List (List ℕ)) where
  abbrev text : List ℕ
  text = x ++ tails ov (y ∷ ys)

  abbrev result : Option (List ℕ)
  result = replace_sites (sites_from (length ov) (length x) (y ∷ ys)) ov nv text

  later_sites :
      sites_from (length ov) (length x + length ov + length y) ys ++ (length text ∷ [])
      ≡ later_stops (length ov) (length x) (y ∷ ys)
  later_sites =
      let b = length x + length ov + length y in
      stops-sites ov b (length text) ys (
        omega (
          arith,
          length-append x (tails ov (y ∷ ys)),
          length-append ov (y ++ tails ov ys),
          length-append y (tails ov ys),
        ))

  replace-equal : (length ov == length nv) ≡ true → result ≡ some (x ++ tails nv (y ∷ ys))
  unfolding replace_sites
  replace-equal e =
      rw (replace_sites, e) (equal_loop-tails ov nv x (length x) (y ∷ ys) (ground (arith, e)) refl)

  replace-shorter :
      (length ov == length nv) ≡ false
      → ltb (length nv) (length ov) ≡ true
      → result ≡ some (x ++ tails nv (y ∷ ys))
  unfolding replace_sites
  replace-shorter e f =
      rw (replace_sites, e, f, later_sites)
        (shrink_loop-tails ov nv x [] (length x) (length x) (y ∷ ys) (ground (arith, f))
          (omega arith) refl)

  replace-longer :
      (length ov == length nv) ≡ false
      → ltb (length nv) (length ov) ≡ false
      → result ≡ some (x ++ tails nv (y ∷ ys))
  unfolding replace_sites
  replace-longer e f =
      let d = length nv - length ov in
      let spare : List ℕ = replicate (d * suc (length ys)) 0 in
      let count : length (sites_from (length ov) (length x) (y ∷ ys)) ≡ suc (length ys) =
        length-sites_from (length ov) (length x) (y ∷ ys) in
      let wide : text ++ spare ≡ x ++ (tails ov (y ∷ ys) ++ spare) =
        append_assoc x (tails ov (y ∷ ys)) spare in
      let sized : length spare ≡ 0 + d * suc (length ys) =
        omega (arith, length-replicate {A = ℕ} (d * suc (length ys)) 0) in
      let known =
        grow_loop-tails ov nv x spare (length x) (length (x ++ (tails ov (y ∷ ys) ++ spare))) 0
          (y ∷ ys) (ground (arith, f)) refl sized refl in
      rw (replace_sites, e, f, later_sites, count, wide)
        (grown-Grown ov nv x (length x) (length (x ++ (tails ov (y ∷ ys) ++ spare)))
          (x ++ (tails ov (y ∷ ys) ++ spare)) (y ∷ ys) known)

replace_sites-pieces :
    (ov nv x : List ℕ) (ys : List (List ℕ))
    → replace_sites (sites_from (length ov) (length x) ys) ov nv (x ++ tails ov ys)
      ≡ some (x ++ tails nv ys)
unfolding replace_sites
replace_sites-pieces ov nv x [] = refl
replace_sites-pieces ov nv x (y ∷ ys) = elim (Bool-cases (length ov == length nv)) [
  | inl e ↦ replace-equal ov nv x y ys e
  | inr e ↦ elim (Bool-cases (ltb (length nv) (length ov))) [
    | inl f ↦ replace-shorter ov nv x y ys e f
    | inr f ↦ replace-longer ov nv x y ys e f
  ]
]

-- For a text and an old part that are not empty, `ReplaceString` makes each of its accesses inside
-- the buffer, and in each of its three branches it leaves the pieces of `SplitToVec` at the old part,
-- neither trimmed nor cleared, joined by `JoinVec` with the new part.
pub replace_string-join_vec :
    (str ov nv : List ℕ)
    → 0 < length str
    → 0 < length ov
    → replace_string str ov nv ≡ some (join_vec (split_to_vec str ov false false) nv)
unfolding replace_string split_to_vec
replace_string-join_vec str ov nv h z =
    let cut = find_sites-Cut (suc (length str)) ov str str 0 z (omega arith) refl in
    let sum : 0 + length cut.first ≡ length cut.first = omega arith in
    let found = cut.sites ∙ ap (λ n. sites_from (length ov) n cut.further) sum in
    let done = replace_sites-pieces ov nv cut.first cut.further in
    let goal : replace_sites (find_sites (suc (length str)) ov str 0) ov nv str
        ≡ some (join_vec (split_loop (suc (length str)) ov false false str) nv) =
      ap (λ zs. replace_sites zs ov nv str) found
      ∙ ap (λ zs. replace_sites (sites_from (length ov) (length cut.first) cut.further) ov nv zs)
          cut.whole
      ∙ done
      ∙ ap some (sym (join_vec-tails nv cut.first cut.further))
      ∙ ap (λ zs. some (join_vec zs nv)) (sym cut.pieces) in
    rw (replace_string, split_to_vec, is_empty-false str h, is_empty-false ov z) goal
