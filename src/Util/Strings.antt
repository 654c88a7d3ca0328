-- ===== src/Util/Strings.antt =====
-- src/common/util/string_util.h: trimming, splitting and joining of texts, as lists of bytes.
pub mod Trimming
pub mod Finding
pub mod Splitting
pub mod Replacing
pub mod Truncation
pub mod Affixes
pub mod Versions
use aim_rt.Prelude.{
  ℕ, zero, suc, ◌+◌, Bool, true, false, not, ◌&&◌, ◌||◌, List, [], ◌∷◌, ◌++◌, Option, none, some,
  nat_eq, ◌==◌, if◌then◌else◌, length, take, drop,
}

abbrev pub is_empty : List ℕ → Bool
is_empty [] = true
is_empty (x ∷ xs) = false

abbrev pub next_index : Option ℕ → Option ℕ
next_index none = none
next_index (some i) = some (suc i)

-- `find_first_not_of(' ')` and `find_last_not_of(' ')`; `none` is `npos`.
unfoldable pub find_first_not_space : List ℕ → Option ℕ
find_first_not_space [] = none
find_first_not_space (x ∷ xs) =
    let rest = next_index (find_first_not_space xs) in if x == 32 then rest else some 0

unfoldable pub find_last_not_space : List ℕ → Option ℕ
find_last_not_space [] = none
find_last_not_space (x ∷ xs) = elim (find_last_not_space xs) [
  | some i ↦ some (suc i)
  | none ↦ if x == 32 then none else some 0
]

-- The overload for `std::string`: `erase` with `npos + 1`, which is 0, and with `npos` erases all.
unfoldable pub trim : List ℕ → List ℕ
unfolding find_first_not_space find_last_not_space
trim s =
    let s1 : List ℕ = elim (find_last_not_space s) [ none ↦ [] | some i ↦ take (suc i) s ] in
    let s2 : List ℕ = elim (find_first_not_space s1) [ none ↦ [] | some i ↦ drop i s1 ] in
    if is_empty s then s else s2

-- The overload for `std::string_view`, with `substr`.
unfoldable pub trim_view : List ℕ → List ℕ
unfolding find_first_not_space find_last_not_space
trim_view s =
    let s1 : List ℕ = take (elim (find_last_not_space s) [ none ↦ 0 | some i ↦ suc i ]) s in
    let s2 : List ℕ = drop (elim (find_first_not_space s1) [ none ↦ length s1 | some i ↦ i ]) s1 in
    if is_empty s then s else s2

abbrev pub is_prefix : List ℕ → List ℕ → Bool
is_prefix [] xs = true
is_prefix (a ∷ bs) [] = false
is_prefix (a ∷ bs) (x ∷ xs) = a == x && is_prefix bs xs

-- `source.find(sep)` in what is left of the source.
unfoldable pub find_sub : List ℕ → List ℕ → Option ℕ
find_sub sep [] = if is_prefix sep [] then some 0 else none
find_sub sep (x ∷ xs) =
    let rest = next_index (find_sub sep xs) in if is_prefix sep (x ∷ xs) then some 0 else rest

-- What is added to the result for one piece.
unfoldable pub emplace_piece : Bool → Bool → List ℕ → List (List ℕ) → List (List ℕ)
unfolding trim_view
emplace_piece trims clear piece result =
    let s = if trims then trim_view piece else piece in
    if clear && is_empty s then result else s ∷ result

-- The loop, on the part of the source from `pos_start` on and with fuel for the pieces.
unfoldable pub split_loop : ℕ → List ℕ → Bool → Bool → List ℕ → List (List ℕ)
unfolding find_sub emplace_piece
split_loop zero sep trims clear src = []
split_loop (suc fuel) sep trims clear src = elim (find_sub sep src) [
  | none ↦ emplace_piece trims clear src []
  | some i ↦
      emplace_piece trims clear (take i src)
        (split_loop fuel sep trims clear (drop (i + length sep) src))
]

unfoldable pub split_to_vec : List ℕ → List ℕ → Bool → Bool → List (List ℕ)
unfolding split_loop
split_to_vec source sep trims clear =
    if is_empty source || is_empty sep
    then []
    else split_loop (suc (length source)) sep trims clear source

unfoldable pub join_vec : List (List ℕ) → List ℕ → List ℕ
join_vec [] sep = []
join_vec (x ∷ []) sep = x
join_vec (x ∷ y ∷ ys) sep = x ++ (sep ++ join_vec (y ∷ ys) sep)
