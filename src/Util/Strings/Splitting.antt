-- ===== src/Util/Strings/Splitting.antt =====
-- string_util.h: splitting and joining, without trimming and with empty pieces kept.
use aim_rt.Prelude.{
  ℕ, zero, suc, ◌+◌, ◌<◌, ◌≡◌, refl, ap, false, List, [], ◌∷◌, ◌++◌, none, some, nat_eq, length,
  take, drop, All, arith, Option-cases, inl, inr, length-append,
}
use aim_rt.Util.Strings.{
  is_prefix, is_empty, find_sub, emplace_piece, split_loop, split_to_vec, join_vec,
}
use aim_rt.Util.Strings.Finding.{find_sub-take, find_sub-before}

-- Whether or not the separator is found, with the fuel that is left.
pub split-found :
    (fuel : ℕ) (sep src : List ℕ) (i : ℕ)
    → find_sub sep src ≡ some i
    → split_loop (suc fuel) sep false false src
      ≡ take i src ∷ split_loop fuel sep false false (drop (i + length sep) src)
unfolding split_loop emplace_piece
split-found fuel sep src i e = rw (split_loop, e) refl

pub split-last :
    (fuel : ℕ) (sep src : List ℕ)
    → find_sub sep src ≡ none
    → split_loop (suc fuel) sep false false src ≡ src ∷ []
unfolding split_loop emplace_piece
split-last fuel sep src e = rw (split_loop, e) refl

join_vec-cons :
    (sep x : List ℕ) (fuel : ℕ) (src : List ℕ)
    → join_vec (x ∷ split_loop (suc fuel) sep false false src) sep
      ≡ x ++ (sep ++ join_vec (split_loop (suc fuel) sep false false src) sep)
unfolding join_vec
join_vec-cons sep x fuel src = elim (Option-cases (find_sub sep src)) [
  | inl e ↦ rw (split-last fuel sep src e) refl
  | inr (i, e) ↦ rw (split-found fuel sep src i e) refl
]

-- The part of the source after a separator is shorter.
pub shorter :
    (sep src : List ℕ) (i : ℕ)
    → 0 < length sep
    → find_sub sep src ≡ some i
    → length (drop (i + length sep) src) < length src
shorter sep src i z e =
    let all = ap length (find_sub-take sep src i e) in
    let rest = drop (i + length sep) src in
    omega (arith, all, length-append (take i src) (sep ++ rest), length-append sep rest, z)

join-split_loop :
    (fuel : ℕ) (sep src : List ℕ)
    → 0 < length sep
    → length src < fuel
    → join_vec (split_loop fuel sep false false src) sep ≡ src
join-split_loop zero sep src z h = absurd (omega (arith, h))
join-split_loop (suc zero) sep src z h = elim (Option-cases (find_sub sep src)) [
  | inl e ↦ rw (split-last zero sep src e) (unfold join_vec in refl)
  | inr (i, e) ↦ absurd (omega (arith, h, shorter sep src i z e))
]
join-split_loop (suc (suc fuel)) sep src z h = elim (Option-cases (find_sub sep src)) [
  | inl e ↦ rw (split-last (suc fuel) sep src e) (unfold join_vec in refl)
  | inr (i, e) ↦
      let rest = drop (i + length sep) src in
      rw
        (
          split-found (suc fuel) sep src i e,
          join_vec-cons sep (take i src) fuel rest,
          join-split_loop (suc fuel) sep rest z (omega (arith, h, shorter sep src i z e)),
        )
        (find_sub-take sep src i e)
]

nonempty_not_prefix : (sep : List ℕ) → 0 < length sep → is_prefix sep [] ≡ false
nonempty_not_prefix [] z = absurd (omega (arith, z))
nonempty_not_prefix (a ∷ bs) z = refl

pieces_without :
    (fuel : ℕ) (sep src : List ℕ)
    → 0 < length sep
    → All (λ p. find_sub sep p ≡ none) (split_loop fuel sep false false src)
pieces_without zero sep src z = unfold split_loop in tt
pieces_without (suc fuel) sep src z = elim (Option-cases (find_sub sep src)) [
  | inl e ↦ rw (split-last fuel sep src e) (e, tt)
  | inr (i, e) ↦ rw (split-found fuel sep src i e) (
    find_sub-before sep src i (nonempty_not_prefix sep z) e,
    pieces_without fuel sep (drop (i + length sep) src) z,
  )
]

pub is_empty-false : (s : List ℕ) → 0 < length s → is_empty s ≡ false
is_empty-false [] z = absurd (omega (arith, z))
is_empty-false (x ∷ xs) z = refl

-- A text and a separator that are not empty: the pieces of `SplitToVec`, neither trimmed nor cleared,
-- joined by `JoinVec` with the separator, are the text, and no piece contains the separator.
pub join_vec-split_to_vec :
    (source sep : List ℕ)
    → 0 < length source
    → 0 < length sep
    → (join_vec (split_to_vec source sep false false) sep ≡ source)
      × All (λ p. find_sub sep p ≡ none) (split_to_vec source sep false false)
unfolding split_to_vec
join_vec-split_to_vec source sep hs z =
    rw (split_to_vec, is_empty-false source hs, is_empty-false sep z)
      (
        join-split_loop (suc (length source)) sep source z (omega arith),
        pieces_without (suc (length source)) sep source z,
      )
