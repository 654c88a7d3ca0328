-- ===== src/Util/StringsExamples.antt =====
-- string_util.h: " a " trimmed, and "a,,b" split at commas.
use aim_rt.Prelude.{ℕ, ◌≡◌, refl, List, [], ◌∷◌, ◌++◌, replicate, true}
use aim_rt.Util.Strings.{trim, trim_view, split_to_vec}
use aim_rt.Util.Strings.Trimming.{StartsSolid, EndsSolid, trim-exact}

abbrev demo_list : List ℕ
demo_list = 97 ∷ 44 ∷ 44 ∷ 98 ∷ []

demo_trims : trim (32 ∷ 97 ∷ 32 ∷ []) ≡ 97 ∷ []
unfolding trim
demo_trims = refl

demo_splits : split_to_vec demo_list (44 ∷ []) true true ≡ (97 ∷ []) ∷ (98 ∷ []) ∷ []
unfolding split_to_vec
demo_splits = refl

abbrev demo_padded : List ℕ
demo_padded = 32 ∷ 97 ∷ 32 ∷ []

trim-exact_example :
    (trim_view demo_padded ≡ trim demo_padded)
    × StartsSolid (trim demo_padded)
    × EndsSolid (trim demo_padded)
    × (n : ℕ) × (m : ℕ) × (demo_padded ≡ replicate n 32 ++ (trim demo_padded ++ replicate m 32))
trim-exact_example = trim-exact demo_padded
