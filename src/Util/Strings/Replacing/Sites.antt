-- ===== src/Util/Strings/Replacing/Sites.antt =====
-- string_util.h: the sites that `ReplaceString` finds, and its result.
use aim_rt.Prelude.{
  ℕ, zero, suc, ◌+◌, ◌<◌, ◌≡◌, refl, sym, ap, ◌∙◌, List, [], ◌∷◌, ◌++◌, some, none, nat_eq, false,
  length, take, drop, arith, append-nil, length-append, Option-cases, inl, inr,
}
use aim_rt.Util.Strings.{find_sub, split_loop, join_vec}
use aim_rt.Util.Strings.Finding.{find_sub-take}
use aim_rt.Util.Strings.Splitting.{split-found, split-last, shorter}
use aim_rt.Util.Strings.Replacing.{find_sites}
use aim_rt.Util.Strings.Replacing.Writing.{drop-drop}
use aim_rt.Util.Strings.Replacing.InPlace.{tails, sites_from, later_stops}

length-take_short : (n : ℕ) (xs : List ℕ) → length (take n xs) < length xs → length (take n xs) ≡ n
length-take_short zero xs h = refl
length-take_short (suc n) [] h = absurd (omega (arith, h))
length-take_short (suc n) (x ∷ xs) h = ap suc (length-take_short n xs (omega (arith, h)))

find_sites-found :
    (fuel : ℕ) (ov str src : List ℕ) (pos i : ℕ)
    → drop pos str ≡ src
    → find_sub ov src ≡ some i
    → find_sites (suc fuel) ov str pos ≡ (pos + i) ∷ find_sites fuel ov str (pos + i + length ov)
unfolding find_sites
find_sites-found fuel ov str src pos i e h = rw (find_sites, e, h) refl

find_sites-last :
    (fuel : ℕ) (ov str src : List ℕ) (pos : ℕ)
    → drop pos str ≡ src
    → find_sub ov src ≡ none
    → find_sites (suc fuel) ov str pos ≡ []
unfolding find_sites
find_sites-last fuel ov str src pos e h = rw (find_sites, e, h) refl

-- The sites stand between the pieces.
pub record Cut (fuel : ℕ) (ov str src : List ℕ) (pos : ℕ) : Type 0 where
  pub first : List ℕ
  pub further : List (List ℕ)
  pub pieces : split_loop fuel ov false false src ≡ first ∷ further
  pub whole : src ≡ first ++ tails ov further
  pub sites : find_sites fuel ov str pos ≡ sites_from (length ov) (pos + length first) further

pub find_sites-Cut :
    (fuel : ℕ) (ov str src : List ℕ) (pos : ℕ)
    → 0 < length ov
    → length src < fuel
    → drop pos str ≡ src
    → Cut fuel ov str src pos
find_sites-Cut zero ov str src pos z h e = absurd (omega (arith, h))
find_sites-Cut (suc fuel) ov str src pos z h e = elim (Option-cases (find_sub ov src)) [
  | inl f ↦ record {
    first = src;
    further = [];
    pieces = split-last fuel ov src f;
    whole = sym (append-nil src);
    sites = find_sites-last fuel ov str src pos e f;
  }
  | inr (i, f) ↦
      let rest = drop (i + length ov) src in
      let parts = find_sub-take ov src i f in
      let sizes = length-append (take i src) (ov ++ rest) in
      let less = shorter ov src i z f in
      let at : length (take i src) ≡ i =
        length-take_short i src (omega (arith, z, sizes, length-append ov rest, ap length parts)) in
      let there : drop (pos + i + length ov) str ≡ rest =
        let sum : pos + i + length ov ≡ pos + (i + length ov) = omega arith in
        rw (sum, drop-drop pos (i + length ov) str, e) refl in
      let later =
        find_sites-Cut fuel ov str rest (pos + i + length ov) z (omega (arith, h, less)) there in
      record {
        first = take i src;
        further = later.first ∷ later.further;
        pieces = split-found fuel ov src i f ∙ ap (λ ys. take i src ∷ ys) later.pieces;
        whole = sym parts ∙ ap (λ ys. take i src ++ (ov ++ ys)) later.whole;
        sites =
            find_sites-found fuel ov str src pos i e f
            ∙ ap (λ ys. (pos + i) ∷ ys) later.sites
            ∙ ap (λ n. sites_from (length ov) (pos + n) (later.first ∷ later.further)) (sym at);
      }
]

pub length-sites_from : (n a : ℕ) (ys : List (List ℕ)) → length (sites_from n a ys) ≡ length ys
length-sites_from n a [] = refl
length-sites_from n a (y ∷ ys) = ap suc (length-sites_from n (a + n + length y) ys)

-- With the size of the text at the end.
pub stops-sites :
    (ov : List ℕ) (a size : ℕ) (ys : List (List ℕ))
    → size ≡ a + length (tails ov ys)
    → sites_from (length ov) a ys ++ (size ∷ []) ≡ a ∷ later_stops (length ov) a ys
stops-sites ov a size [] e = ap (λ n. n ∷ []) (omega (arith, e))
stops-sites ov a size (y ∷ ys) e =
    ap (λ zs. a ∷ zs)
      (stops-sites ov (a + length ov + length y) size ys
        (omega (arith, e, length-append ov (y ++ tails ov ys), length-append y (tails ov ys))))

pub join_vec-tails :
    (sep x : List ℕ) (ys : List (List ℕ)) → join_vec (x ∷ ys) sep ≡ x ++ tails sep ys
unfolding join_vec
join_vec-tails sep x [] = sym (append-nil x)
join_vec-tails sep x (y ∷ ys) = ap (λ zs. x ++ (sep ++ zs)) (join_vec-tails sep y ys)
