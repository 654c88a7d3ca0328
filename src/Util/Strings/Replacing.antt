-- ===== src/Util/Strings/Replacing.antt =====
-- string_util.h: `ReplaceString`. An access outside the buffer gives `none`.
pub mod Writing
pub mod InPlace
pub mod Growing
pub mod Sites
pub mod Reference
use aim_rt.Prelude.{
  ℕ, zero, suc, ◌+◌, ◌-◌, ◌*◌, List, [], ◌∷◌, ◌++◌, Option, none, some, nat_eq, ◌==◌, ◌||◌, ltb,
  leb, if◌then◌else◌, length, take, drop, replicate,
}
use aim_rt.Util.Strings.{is_empty, find_sub}

infixl 5 ◌>>=◌
abbrev pub ◌>>=◌ {ℓ κ} : {A : Type ℓ} {B : Type κ} → Option A → (A → Option B) → Option B
none >>= f = none
some a >>= f = f a

-- `memcpy` or `memmove` of `xs` to offset `p`, and what lies at offset `p`.
unfoldable pub write : ℕ → List ℕ → List ℕ → Option (List ℕ)
write p xs str =
    if leb (p + length xs) (length str)
    then some (take p str ++ (xs ++ drop (p + length xs) str))
    else none

unfoldable pub read : ℕ → ℕ → List ℕ → Option (List ℕ)
read p n str = if leb (p + n) (length str) then some (take n (drop p str)) else none

-- The search, with fuel for the number of sites.
unfoldable pub find_sites : ℕ → List ℕ → List ℕ → ℕ → List ℕ
find_sites zero ov str pos = []
find_sites (suc fuel) ov str pos = elim (find_sub ov (drop pos str)) [
  | none ↦ []
  | some i ↦ (pos + i) ∷ find_sites fuel ov str (pos + i + length ov)
]

unfoldable pub equal_loop : List ℕ → List ℕ → List ℕ → Option (List ℕ)
equal_loop nv [] str = some str
equal_loop nv (a ∷ sites) str = do str1 ← write a nv str; equal_loop nv sites str1

-- `a` is `vec_pos[ii]` and the list is what follows it, the size of the text included; the results
-- are `p` and the text.
unfoldable pub shrink_loop : ℕ → List ℕ → ℕ → List ℕ → ℕ → List ℕ → Option (ℕ × List ℕ)
shrink_loop old_len nv a [] p str = some (p, str)
shrink_loop old_len nv a (b ∷ sites) p str = do
  str1 ← write p nv str
  let cplen = b - a - old_len
  kept ← read (a + old_len) cplen str1
  str2 ← write (p + length nv) kept str1
  shrink_loop old_len nv b sites (p + length nv + cplen) str2

-- From the last site to the first.
unfoldable pub grow_loop : ℕ → List ℕ → ℕ → List ℕ → ℕ → List ℕ → Option (ℕ × List ℕ)
grow_loop old_len nv a [] p str = some (p, str)
grow_loop old_len nv a (b ∷ sites) p str = do
  (p1, str1) ← grow_loop old_len nv b sites p str
  let cplen = b - a - old_len
  kept ← read (a + old_len) cplen str1
  str2 ← write (p1 - cplen) kept str1
  str3 ← write (p1 - cplen - length nv) nv str2
  some (p1 - cplen - length nv, str3)

-- The last `resize` of the branch for a shorter text, and what the branch for a longer one leaves.
abbrev pub resized : Option (ℕ × List ℕ) → Option (List ℕ)
resized r = do (p, str) ← r; some (take p str)

abbrev pub grown : Option (ℕ × List ℕ) → Option (List ℕ)
grown r = do (p, str) ← r; some str

unfoldable pub replace_sites : List ℕ → List ℕ → List ℕ → List ℕ → Option (List ℕ)
replace_sites [] ov nv str = some str
replace_sites (a ∷ sites) ov nv str =
    let stops = sites ++ (length str ∷ []) in
    let wide = str ++ replicate ((length nv - length ov) * length (a ∷ sites)) 0 in
    if length ov == length nv
    then equal_loop nv (a ∷ sites) str
    else if ltb (length nv) (length ov)
    then resized (shrink_loop (length ov) nv a stops a str)
    else grown (grow_loop (length ov) nv a stops (length wide) wide)

unfoldable pub replace_string : List ℕ → List ℕ → List ℕ → Option (List ℕ)
replace_string str ov nv =
    if is_empty str || is_empty ov
    then some str
    else replace_sites (find_sites (suc (length str)) ov str 0) ov nv str
