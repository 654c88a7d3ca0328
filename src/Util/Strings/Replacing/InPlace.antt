-- ===== src/Util/Strings/Replacing/InPlace.antt =====
-- string_util.h: the three loops of `ReplaceString`, each on a text that is cut at the sites.
use aim_rt.Prelude.{
  ℕ, ◌+◌, ◌-◌, ◌≤◌, ◌≡◌, refl, sym, ap, ◌∙◌, List, [], ◌∷◌, ◌++◌, some, length, drop, arith,
  append_assoc, append-nil, length-append, take-length-append, drop-append,
}
use aim_rt.Util.Strings.Replacing.{resized, write, read, equal_loop, shrink_loop}
use aim_rt.Util.Strings.Replacing.Writing.{write_over, write_at, read_at, length-drop}

-- What follows the first piece: each further piece after a separator.
abbrev pub tails : List ℕ → List (List ℕ) → List ℕ
tails sep [] = []
tails sep (y ∷ ys) = sep ++ (y ++ tails sep ys)

-- The sites after the one at `a`, the end of the text included, and the sites from `a` on.
abbrev pub later_stops : ℕ → ℕ → List (List ℕ) → List ℕ
later_stops n a [] = []
later_stops n a (y ∷ ys) = (a + n + length y) ∷ later_stops n (a + n + length y) ys

abbrev pub sites_from : ℕ → ℕ → List (List ℕ) → List ℕ
sites_from n a [] = []
sites_from n a (y ∷ ys) = a ∷ sites_from n (a + n + length y) ys

pub equal_loop-tails :
    (ov nv out : List ℕ) (a : ℕ) (ys : List (List ℕ))
    → length nv ≡ length ov
    → a ≡ length out
    → equal_loop nv (sites_from (length ov) a ys) (out ++ tails ov ys) ≡ some (out ++ tails nv ys)
unfolding equal_loop
equal_loop-tails ov nv out a [] e h = refl
equal_loop-tails ov nv out a (y ∷ ys) e h =
    let rest =
      equal_loop-tails ov nv (out ++ (nv ++ y)) (a + length ov + length y) ys e
        (omega (arith, h, e, length-append out (nv ++ y), length-append nv y)) in
    rw (equal_loop, write_at a out ov (y ++ tails ov ys) nv h e) (simp append_assoc at rest)

-- What is left over between the text that is done and the rest, after one round.
abbrev junk_after : List ℕ → List ℕ → List ℕ → List ℕ → List ℕ
junk_after junk ov nv y = drop (length y) (drop (length nv) (junk ++ ov) ++ y)

-- One round of the loop for a shorter text.
module _ (ov nv out junk y t : List ℕ) (short : length nv ≤ length ov) where
  first_write :
      (p : ℕ)
      → p ≡ length out
      → write p nv (out ++ (junk ++ (ov ++ (y ++ t))))
        ≡ some (out ++ (nv ++ (drop (length nv) (junk ++ ov) ++ (y ++ t))))
  first_write p e =
      let fits : length nv ≤ length (junk ++ (ov ++ (y ++ t))) =
        omega (arith, short, length-append junk (ov ++ (y ++ t)), length-append ov (y ++ t)) in
      let room : length nv ≤ length (junk ++ ov) = omega (arith, short, length-append junk ov) in
      write_over p out (junk ++ (ov ++ (y ++ t))) nv e fits
      ∙ ap (λ zs. some (out ++ (nv ++ zs)))
          (ap (drop (length nv)) (sym (append_assoc junk ov (y ++ t)))
            ∙ drop-append (length nv) (junk ++ ov) (y ++ t) room)

  length-over : length (drop (length nv) (junk ++ ov)) + length nv ≡ length junk + length ov
  length-over =
      let room : length nv ≤ length (junk ++ ov) = omega (arith, short, length-append junk ov) in
      omega (arith, length-drop (length nv) (junk ++ ov) room, length-append junk ov)

  kept_read :
      (a n : ℕ)
      → a ≡ length out + length junk
      → n ≡ length y
      → read (a + length ov) n (out ++ (nv ++ (drop (length nv) (junk ++ ov) ++ (y ++ t)))) ≡ some y
  kept_read a n e f =
      let over = drop (length nv) (junk ++ ov) in
      let at : a + length ov ≡ length (out ++ (nv ++ over)) =
        omega (arith, e, length-over, length-append out (nv ++ over), length-append nv over) in
      let got = read_at (a + length ov) n (out ++ (nv ++ over)) y t at f in simp append_assoc at got

  second_write :
      (p : ℕ)
      → p ≡ length out
      → write (p + length nv) y (out ++ (nv ++ (drop (length nv) (junk ++ ov) ++ (y ++ t))))
        ≡ some (out ++ (nv ++ (y ++ (junk_after junk ov nv y ++ t))))
  second_write p e =
      let over = drop (length nv) (junk ++ ov) in
      let at : p + length nv ≡ length (out ++ nv) = omega (arith, e, length-append out nv) in
      let fits : length y ≤ length (over ++ (y ++ t)) =
        omega (arith, length-append over (y ++ t), length-append y t) in
      let room : length y ≤ length (over ++ y) = omega (arith, length-append over y) in
      ap (write (p + length nv) y) (sym (append_assoc out nv (over ++ (y ++ t))))
      ∙ write_over (p + length nv) (out ++ nv) (over ++ (y ++ t)) y at fits
      ∙ ap some (
          append_assoc out nv (y ++ drop (length y) (over ++ (y ++ t)))
          ∙ ap (λ zs. out ++ (nv ++ (y ++ zs)))
              (ap (drop (length y)) (sym (append_assoc over y t))
                ∙ drop-append (length y) (over ++ y) t room))

  shrink_round :
      (a b p : ℕ) (sites : List ℕ)
      → a ≡ length out + length junk
      → p ≡ length out
      → b ≡ a + length ov + length y
      → shrink_loop (length ov) nv a (b ∷ sites) p (out ++ (junk ++ (ov ++ (y ++ t))))
        ≡ shrink_loop
            (length ov)
            nv
            b
            sites
            (p + length nv + length y)
            (out ++ (nv ++ (y ++ (junk_after junk ov nv y ++ t))))
  unfolding shrink_loop
  shrink_round a b p sites e f g =
      let cut : b - a - length ov ≡ length y = omega (arith, g) in
      rw (shrink_loop, first_write p f, cut, kept_read a (length y) e refl, second_write p f) refl

-- A text of `n` bytes comes out in front, and what follows it is cut off.
pub shrink_loop-tails :
    (ov nv out junk : List ℕ) (a p : ℕ) (ys : List (List ℕ))
    → length nv ≤ length ov
    → a ≡ length out + length junk
    → p ≡ length out
    → resized (
        shrink_loop
          (length ov)
          nv
          a
          (later_stops (length ov) a ys)
          p
          (out ++ (junk ++ tails ov ys)))
      ≡ some (out ++ tails nv ys)
unfolding shrink_loop
shrink_loop-tails ov nv out junk a p [] short e f =
    rw (shrink_loop, f, append-nil junk, append-nil out, take-length-append out junk) refl
shrink_loop-tails ov nv out junk a p (y ∷ ys) short e f =
    let b = a + length ov + length y in
    let over = drop (length nv) (junk ++ ov) in
    let left = junk_after junk ov nv y in
    let out1 = out ++ (nv ++ y) in
    let room : length y ≤ length (over ++ y) = omega (arith, length-append over y) in
    let lengths = length-append out (nv ++ y) in
    let at : p + length nv + length y ≡ length out1 =
      omega (arith, f, lengths, length-append nv y) in
    let mark : b ≡ length out1 + length left = omega (
      arith,
      e,
      lengths,
      length-append nv y,
      length-over ov nv out junk y [] short,
      length-drop (length y) (over ++ y) room,
      length-append over y,
    ) in
    let rest = shrink_loop-tails ov nv out1 left b (p + length nv + length y) ys short mark at in
    ap resized (
      shrink_round ov nv out junk y (tails ov ys) short a b p (later_stops (length ov) b ys) e f
        refl)
    ∙ (simp append_assoc at rest)
