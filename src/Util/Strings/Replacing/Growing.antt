-- ===== src/Util/Strings/Replacing/Growing.antt =====
-- string_util.h: the loop of `ReplaceString` for a longer text, which goes from the last site to the
-- first.
use native.Mathlib.Nat.{mul-suc}
use aim_rt.Prelude.{
  ℕ, ◌+◌, ◌-◌, ◌*◌, ◌≤◌, ◌≡◌, refl, sym, ap, ◌∙◌, List, [], ◌∷◌, ◌++◌, some, length, take, drop,
  arith, append_assoc, append-nil, length-append, length-take, take-drop, subst,
}
use aim_rt.Util.Strings.Replacing.{write, read, grow_loop}
use aim_rt.Util.Strings.Replacing.Writing.{write_at, read_at, length-drop}
use aim_rt.Util.Strings.Replacing.InPlace.{tails, later_stops}

-- One round, where `k` more bytes than the site needs lie before what is done already.
module _ (ov nv front junk y t : List ℕ) (k : ℕ)
    (enough : length junk + length ov ≡ k + length nv) where
  abbrev junk_moved : List ℕ
  junk_moved = take (length junk) (y ++ junk)

  abbrev junk_left : List ℕ
  junk_left = take k (ov ++ junk_moved)

  length-moved : length junk_moved ≡ length junk
  length-moved = length-take (length junk) (y ++ junk) (omega (arith, length-append y junk))

  pub length-left : length junk_left ≡ k
  length-left =
      length-take k (ov ++ junk_moved)
        (omega (arith, enough, length-moved, length-append ov junk_moved))

  kept_read :
      (a n : ℕ)
      → a ≡ length front
      → n ≡ length y
      → read (a + length ov) n (front ++ (ov ++ (y ++ (junk ++ t)))) ≡ some y
  kept_read a n e f =
      let at : a + length ov ≡ length (front ++ ov) = omega (arith, e, length-append front ov) in
      let got = read_at (a + length ov) n (front ++ ov) y (junk ++ t) at f in
      simp append_assoc at got

  first_write :
      (q : ℕ)
      → q ≡ length front + length ov + length junk
      → write q y (front ++ (ov ++ (y ++ (junk ++ t))))
        ≡ some (front ++ (ov ++ (junk_moved ++ (y ++ t))))
  first_write q e =
      let over = drop (length junk) (y ++ junk) in
      let at : q ≡ length (front ++ (ov ++ junk_moved)) = omega (
        arith,
        e,
        length-moved,
        length-append front (ov ++ junk_moved),
        length-append ov junk_moved,
      ) in
      let whole : length junk ≤ length (y ++ junk) = omega (arith, length-append y junk) in
      let same : length y ≡ length over =
        omega (arith, length-drop (length junk) (y ++ junk) whole, length-append y junk) in
      let done = write_at q (front ++ (ov ++ junk_moved)) over t y at same in
      let parts : junk_moved ++ (over ++ t) ≡ y ++ (junk ++ t) =
        sym (append_assoc junk_moved over t)
        ∙ ap (λ zs. zs ++ t) (take-drop (length junk) (y ++ junk))
        ∙ append_assoc y junk t in
      ap (λ zs. write q y (front ++ (ov ++ zs))) (sym parts) ∙ (simp append_assoc at done)

  second_write :
      (q : ℕ)
      → q ≡ length front + k
      → write q nv (front ++ (ov ++ (junk_moved ++ (y ++ t))))
        ≡ some (front ++ (junk_left ++ (nv ++ (y ++ t))))
  second_write q e =
      let over = drop k (ov ++ junk_moved) in
      let at : q ≡ length (front ++ junk_left) =
        omega (arith, e, length-left, length-append front junk_left) in
      let whole : k ≤ length (ov ++ junk_moved) =
        omega (arith, enough, length-moved, length-append ov junk_moved) in
      let same : length nv ≡ length over = omega (
        arith,
        enough,
        length-moved,
        length-drop k (ov ++ junk_moved) whole,
        length-append ov junk_moved,
      ) in
      let done = write_at q (front ++ junk_left) over (y ++ t) nv at same in
      let parts : junk_left ++ (over ++ (y ++ t)) ≡ ov ++ (junk_moved ++ (y ++ t)) =
        sym (append_assoc junk_left over (y ++ t))
        ∙ ap (λ zs. zs ++ (y ++ t)) (take-drop k (ov ++ junk_moved))
        ∙ append_assoc ov junk_moved (y ++ t) in
      ap (λ zs. write q nv (front ++ zs)) (sym parts) ∙ (simp append_assoc at done)

  grow_round :
      (a b p : ℕ) (sites str : List ℕ)
      → a ≡ length front
      → b ≡ a + length ov + length y
      → grow_loop (length ov) nv b sites p str
        ≡ some (b + length junk, front ++ (ov ++ (y ++ (junk ++ t))))
      → grow_loop (length ov) nv a (b ∷ sites) p str
        ≡ some (a + k, front ++ (junk_left ++ (nv ++ (y ++ t))))
  unfolding grow_loop
  grow_round a b p sites str e g r =
      let cut : b - a - length ov ≡ length y = omega (arith, g) in
      let q : ℕ = b + length junk - length y in
      let first = first_write q (omega (arith, e, g)) in
      let at : q - length nv ≡ a + k = omega (arith, e, g, enough) in
      rw
        (
          grow_loop,
          r,
          cut,
          kept_read a (length y) e refl,
          first,
          at,
          second_write (a + k) (omega (arith, e)),
        )
        refl

-- The loop ends at offset `a + k` with a text in which `k` bytes of junk follow `front`.
abbrev pub Grown : List ℕ → List ℕ → List ℕ → ℕ → ℕ → ℕ → List ℕ → List (List ℕ) → Type 0
Grown ov nv front k a p str ys =
    (left : List ℕ) × (length left ≡ k)
    × (grow_loop (length ov) nv a (later_stops (length ov) a ys) p str
        ≡ some (a + k, front ++ (left ++ tails nv ys)))

earlier-Grown :
    (ov nv front y : List ℕ) (k a p : ℕ) (str : List ℕ) (ys : List (List ℕ))
    → length ov ≤ length nv
    → a ≡ length front
    → Grown ov nv
        (front ++ (ov ++ y))
        (k + (length nv - length ov))
        (a + length ov + length y)
        p
        str
        ys
    → Grown ov nv front k a p str (y ∷ ys)
earlier-Grown ov nv front y k a p str ys long e (left, size, run) =
    let b = a + length ov + length y in
    let t = tails nv ys in
    let enough : length left + length ov ≡ k + length nv = omega (arith, size, long) in
    let inner = ap (λ n. some (b + n, (front ++ (ov ++ y)) ++ (left ++ t))) (sym size) in
    let known =
      run
      ∙ inner
      ∙ ap (λ zs. some (b + length left, zs))
          (append_assoc front (ov ++ y) (left ++ t)
            ∙ ap (λ zs. front ++ zs) (append_assoc ov y (left ++ t))) in
    (
      junk_left ov nv front left y t k enough,
      length-left ov nv front left y t k enough,
      grow_round ov nv front left y t k enough a b p (later_stops (length ov) b ys) str e refl
          known,
    )

pub grow_loop-tails :
    (ov nv front junk : List ℕ) (a p k : ℕ) (ys : List (List ℕ))
    → length ov ≤ length nv
    → a ≡ length front
    → length junk ≡ k + (length nv - length ov) * length ys
    → p ≡ length (front ++ (tails ov ys ++ junk))
    → Grown ov nv front k a p (front ++ (tails ov ys ++ junk)) ys
unfolding grow_loop
grow_loop-tails ov nv front junk a p k [] long e f g =
    let none_left : (length nv - length ov) * 0 ≡ 0 = omega arith in
    let same : length junk ≡ k = omega (arith, f, none_left) in
    let at : p ≡ a + k = omega (arith, g, e, same, length-append front junk) in
    (junk, same, rw (grow_loop, at, append-nil junk) refl)
grow_loop-tails ov nv front junk a p k (y ∷ ys) long e f g =
    let d = length nv - length ov in
    let b = a + length ov + length y in
    let front1 = front ++ (ov ++ y) in
    let at : b ≡ length front1 =
      omega (arith, e, length-append front (ov ++ y), length-append ov y) in
    let more : length junk ≡ k + d + d * length ys = omega (arith, f, mul-suc d (length ys)) in
    let same : front1 ++ (tails ov ys ++ junk) ≡ front ++ (tails ov (y ∷ ys) ++ junk) =
      simp append_assoc in
    let later =
      grow_loop-tails ov nv front1 junk b p (k + d) ys long at more (g ∙ ap length (sym same)) in
    earlier-Grown ov nv front y k a p (front ++ (tails ov (y ∷ ys) ++ junk)) ys long e
      (subst (λ str. Grown ov nv front1 (k + d) b p str ys) same later)
