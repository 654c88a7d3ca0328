-- ===== src/Util/TextsExamples.antt =====
-- string_util.h: replacing in each of the three ways, truncation of "A" with a character of three
-- bytes, affixes and versions.
use aim_rt.Prelude.{
  ℕ, ◌≡◌, ◌≤◌, ◌<◌, refl, none, some, Option, List, [], ◌∷◌, true, false, ◌+◌, if◌then◌else◌, ltb,
  ◌&&◌, arith,
}
use aim_rt.Util.Strings.{find_sub, split_to_vec, join_vec}
use aim_rt.Util.Strings.Replacing.{
  replace_string, replace_sites, find_sites, equal_loop, shrink_loop, grow_loop, write, read,
}
use aim_rt.Util.Strings.Replacing.Reference.{replace_string-join_vec}
use aim_rt.Util.Strings.Truncation.{
  is_continuation, step_back, safe_truncation_length, IsLastStart,
  safe_truncation_length-IsLastStart,
}
use aim_rt.Util.Strings.Affixes.{starts_with}
use aim_rt.Util.Strings.Versions.Exact.{Before, Denotes, cmp_version-exact}
use aim_rt.Util.Strings.Versions.{
  below, same, above, dot, cmp_details, cmp_version, check_version_inside,
}

-- "a,,b"
abbrev demo_list : List ℕ
demo_list = 97 ∷ 44 ∷ 44 ∷ 98 ∷ []

demo_same_length : replace_string demo_list (44 ∷ []) (45 ∷ []) ≡ some (97 ∷ 45 ∷ 45 ∷ 98 ∷ [])
unfolding replace_string replace_sites find_sites find_sub equal_loop write
demo_same_length = refl

demo_shrinks : replace_string demo_list (44 ∷ []) [] ≡ some (97 ∷ 98 ∷ [])
unfolding replace_string replace_sites find_sites find_sub shrink_loop write read
demo_shrinks = refl

demo_grows :
    replace_string demo_list (44 ∷ []) (45 ∷ 45 ∷ []) ≡ some (97 ∷ 45 ∷ 45 ∷ 45 ∷ 45 ∷ 98 ∷ [])
unfolding replace_string replace_sites find_sites find_sub grow_loop read write
demo_grows = refl

replace_string-join_vec_example :
    replace_string demo_list (44 ∷ []) (45 ∷ 45 ∷ [])
    ≡ some (join_vec (split_to_vec demo_list (44 ∷ []) false false) (45 ∷ 45 ∷ []))
replace_string-join_vec_example =
    replace_string-join_vec demo_list (44 ∷ []) (45 ∷ 45 ∷ []) (omega arith) (omega arith)

-- "A" and a character of three bytes
abbrev demo_utf8 : List ℕ
demo_utf8 = 65 ∷ 228 ∷ 189 ∷ 160 ∷ []

demo_truncates : safe_truncation_length demo_utf8 4 3 ≡ 1
unfolding safe_truncation_length is_continuation step_back
demo_truncates = refl

safe_truncation_length-IsLastStart_example :
    (safe_truncation_length demo_utf8 4 3 ≤ 4)
    × (safe_truncation_length demo_utf8 4 3 ≤ 3)
    × (4 ≤ 3 → safe_truncation_length demo_utf8 4 3 ≡ 4)
    × (3 < 4 → IsLastStart demo_utf8 3 (safe_truncation_length demo_utf8 4 3))
safe_truncation_length-IsLastStart_example =
    safe_truncation_length-IsLastStart demo_utf8 4 3 (omega arith)

-- Capital letters, made small.
abbrev demo_lower : ℕ → ℕ
demo_lower c = if ltb 64 c && ltb c 91 then c + 32 else c

demo_starts : starts_with demo_lower (65 ∷ 66 ∷ []) (97 ∷ []) true ≡ true
unfolding starts_with
demo_starts = refl

-- One digit.
abbrev demo_number : List ℕ → Option ℕ
demo_number [] = none
demo_number (d ∷ []) = some d
demo_number (d ∷ e ∷ ds) = none

-- "1.2", "1.3" and "2"
abbrev demo_v12 : List ℕ
demo_v12 = 49 ∷ 46 ∷ 50 ∷ []

abbrev demo_v13 : List ℕ
demo_v13 = 49 ∷ 46 ∷ 51 ∷ []

abbrev demo_v2 : List ℕ
demo_v2 = 50 ∷ []

demo_compares : cmp_version demo_number demo_v12 demo_v13 ≡ below
unfolding cmp_version cmp_details split_to_vec
demo_compares = refl

demo_inside : check_version_inside demo_number demo_v13 demo_v12 demo_v2 ≡ some true
unfolding check_version_inside cmp_version cmp_details split_to_vec
demo_inside = refl

cmp_version-exact_example :
    let xs = split_to_vec demo_v12 dot true true in
    let ys = split_to_vec demo_v13 dot true true in
    let same_numbers = (ns : List ℕ) × Denotes demo_number xs ns × Denotes demo_number ys ns in
    ((cmp_version demo_number demo_v12 demo_v13 ≡ below → Before demo_number xs ys)
      × (Before demo_number xs ys → cmp_version demo_number demo_v12 demo_v13 ≡ below))
    × ((cmp_version demo_number demo_v12 demo_v13 ≡ above → Before demo_number ys xs)
        × (Before demo_number ys xs → cmp_version demo_number demo_v12 demo_v13 ≡ above))
    × ((cmp_version demo_number demo_v12 demo_v13 ≡ same → same_numbers)
        × (same_numbers → cmp_version demo_number demo_v12 demo_v13 ≡ same))
cmp_version-exact_example = cmp_version-exact demo_number demo_v12 demo_v13
