-- ===== src/Util/Strings/Versions.antt =====
-- string_util.h: `CmpVersion` and `CheckVersionInside`. `std::from_chars` is a parameter: the number
-- that a whole piece denotes, an int plus 2 ^ 31, or none where the code throws.
pub mod Exact
use aim_rt.Prelude.{ℕ, Bool, true, false, List, [], ◌∷◌, Option, none, some, ltb, if◌then◌else◌}
use aim_rt.Util.Strings.{is_empty, split_to_vec}

-- The results -1, 0 and 1, and the exception.
pub data Order : Type 0 where
  below same above invalid : Order

-- One round of the loop, with what the later rounds give.
abbrev pub compare_numbers : Option ℕ → Option ℕ → Order → Order
compare_numbers none q later = invalid
compare_numbers (some m) none later = invalid
compare_numbers (some m) (some n) later =
    if ltb m n then below else if ltb n m then above else later

unfoldable pub cmp_details : (List ℕ → Option ℕ) → List (List ℕ) → List (List ℕ) → Order
cmp_details number [] [] = same
cmp_details number [] (y ∷ ys) = below
cmp_details number (x ∷ xs) [] = above
cmp_details number (x ∷ xs) (y ∷ ys) =
    compare_numbers (number x) (number y) (cmp_details number xs ys)

abbrev pub dot : List ℕ
dot = 46 ∷ []

unfoldable pub cmp_version : (List ℕ → Option ℕ) → List ℕ → List ℕ → Order
cmp_version number ver1 ver2 =
    cmp_details number (split_to_vec ver1 dot true true) (split_to_vec ver2 dot true true)

-- "0.0.0.0" and "999.9.9.9".
abbrev pub first_version : List ℕ
first_version = 48 ∷ 46 ∷ 48 ∷ 46 ∷ 48 ∷ 46 ∷ 48 ∷ []

abbrev pub last_version : List ℕ
last_version = 57 ∷ 57 ∷ 57 ∷ 46 ∷ 57 ∷ 46 ∷ 57 ∷ 46 ∷ 57 ∷ []

-- `>= 0 && …` and `<= 0`; `none` is the exception, and the second test waits on the first.
abbrev pub both_sides : Order → Order → Option Bool
both_sides invalid high = none
both_sides below high = some false
both_sides low invalid = none
both_sides low above = some false
both_sides low high = some true

unfoldable pub check_version_inside : (List ℕ → Option ℕ) → List ℕ → List ℕ → List ℕ → Option Bool
check_version_inside number ver start_ver end_ver =
    both_sides (cmp_version number ver (if is_empty start_ver then first_version else start_ver))
      (cmp_version number ver (if is_empty end_ver then last_version else end_ver))
