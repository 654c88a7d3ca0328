-- ===== src/Util/Strings/Replacing/Writing.antt =====
-- string_util.h: what `memcpy` and `memmove` do to a text in parts, for `ReplaceString`.
use aim_rt.Prelude.{
  ℕ, zero, suc, ◌+◌, ◌≤◌, ◌≡◌, refl, ap, List, [], ◌∷◌, ◌++◌, some, leb, true, length, drop, arith,
  length-append, take-length-append, drop-length-append,
}
use aim_rt.Util.Strings.Replacing.{write, read}

pub drop-drop : (n m : ℕ) (xs : List ℕ) → drop (n + m) xs ≡ drop m (drop n xs)
drop-drop zero m xs = ap (λ k. drop k xs) (omega arith)
drop-drop (suc n) zero [] = let sum : suc n + 0 ≡ suc n = omega arith in rw sum refl
drop-drop (suc n) (suc m) [] =
    let sum : suc n + suc m ≡ suc (n + suc m) = omega arith in rw sum refl
drop-drop (suc n) m (x ∷ xs) =
    let sum : suc n + m ≡ suc (n + m) = omega arith in rw sum (drop-drop n m xs)

pub length-drop : (n : ℕ) (xs : List ℕ) → n ≤ length xs → length (drop n xs) + n ≡ length xs
length-drop zero xs h = omega arith
length-drop (suc n) [] h = absurd (omega (arith, h))
length-drop (suc n) (x ∷ xs) h = omega (arith, length-drop n xs (omega (arith, h)))

leb-true : (a b : ℕ) → a ≤ b → leb a b ≡ true
leb-true a b h = ground (arith, h)

-- A text written over the beginning of what follows `a`.
pub write_over :
    (p : ℕ) (a c xs : List ℕ)
    → p ≡ length a
    → length xs ≤ length c
    → write p xs (a ++ c) ≡ some (a ++ (xs ++ drop (length xs) c))
unfolding write
write_over p a c xs e h =
    let fits =
      leb-true (length a + length xs) (length (a ++ c)) (omega (arith, h, length-append a c)) in
    rw (
      e,
      write,
      fits,
      take-length-append a c,
      drop-drop (length a) (length xs) (a ++ c),
      drop-length-append a c,
    )

-- A text written over one of its length.
pub write_at :
    (p : ℕ) (a b c xs : List ℕ)
    → p ≡ length a
    → length xs ≡ length b
    → write p xs (a ++ (b ++ c)) ≡ some (a ++ (xs ++ c))
write_at p a b c xs e h =
    rw (
      write_over p a (b ++ c) xs e (omega (arith, h, length-append b c)),
      h,
      drop-length-append b c,
    )

pub read_at :
    (p n : ℕ) (a b c : List ℕ) → p ≡ length a → n ≡ length b → read p n (a ++ (b ++ c)) ≡ some b
unfolding read
read_at p n a b c e h =
    let fits =
      leb-true (length a + length b) (length (a ++ (b ++ c)))
        (omega (arith, length-append a (b ++ c), length-append b c)) in
    rw (e, h, read, fits, drop-length-append a (b ++ c), take-length-append b c)
