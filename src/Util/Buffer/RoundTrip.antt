-- ===== src/Util/Buffer/RoundTrip.antt =====
-- buffer_util.h: what is written with `BufferOperator` is read back with `ConstBufferOperator`.
use aim_rt.Prelude.{
  ℕ, ◌+◌, ◌<◌, ◌≤◌, ◌≡◌, refl, sym, ap, ◌∙◌, List, [], ◌∷◌, ◌++◌, map, arith, length, take, drop,
  All, length-append, take-drop, length-take, append_assoc, append-nil,
}
use aim_rt.Util.Buffer.{BufferOperator, ok, u64_mod, new_operator}
use aim_rt.Util.Buffer.Access.{between, new_operator-between}
use aim_rt.Util.Buffer.Items.{
  Item, request_of, IsItem, write_all, read_all, encode, encode_all, write-between,
  read_item-between,
}

pub still_fits :
    (start : ℕ) (done old new rest : List ℕ)
    → length old ≡ length new
    → start + length (done ++ (old ++ rest)) < u64_mod
    → start + length ((done ++ new) ++ rest) < u64_mod
still_fits start done old new rest h w = omega (
  arith,
  h,
  w,
  length-append done (old ++ rest),
  length-append old rest,
  length-append (done ++ new) rest,
  length-append done new,
)

module _ (start : ℕ) where
  write_all-between :
      (items : List Item) (done old rest : List ℕ)
      → All IsItem items
      → length old ≡ length (encode_all items)
      → start + length (done ++ (old ++ rest)) < u64_mod
      → write_all items (between start done (old ++ rest))
        ≡ ok tt (between start (done ++ encode_all items) rest)
  unfolding write_all
  write_all-between [] done [] rest i h w =
      ap (λ d. ok tt (between start d rest)) (sym (append-nil done))
  write_all-between [] done (o ∷ old) rest i h w = absurd (omega (arith, h))
  write_all-between (x ∷ xs) done old rest (i, is) h w =
      let e = encode x in
      let o1 = take (length e) old in
      let o2 = drop (length e) old in
      let room = h ∙ length-append e (encode_all xs) in
      let h1 = length-take (length e) old (omega (arith, room)) in
      let both = sym (length-append o1 o2) ∙ ap length (take-drop (length e) old) in
      let same = sym (append_assoc o1 o2 rest) ∙ ap (λ o. o ++ rest) (take-drop (length e) old) in
      ap (λ o. write_all (x ∷ xs) (between start done o)) (sym same)
      ∙ rw (write_all, write-between start done x o1 (o2 ++ rest) i h1 (rw same w))
          (write_all-between xs (done ++ e) o2 rest is (omega (arith, both, h1, room))
              (still_fits start done o1 e (o2 ++ rest) h1 (rw same w))
            ∙ ap (λ d. ok tt (between start d rest)) (append_assoc done e (encode_all xs)))

  read_all-between :
      (items : List Item) (done rest : List ℕ)
      → All IsItem items
      → start + length (done ++ (encode_all items ++ rest)) < u64_mod
      → read_all (map request_of items) (between start done (encode_all items ++ rest))
        ≡ ok items (between start (done ++ encode_all items) rest)
  unfolding read_all
  read_all-between [] done rest i w = ap (λ d. ok [] (between start d rest)) (sym (append-nil done))
  read_all-between (x ∷ xs) done rest (i, is) w =
      rw
        (
          read_all,
          append_assoc (encode x) (encode_all xs) rest,
          read_item-between start done x (encode_all xs ++ rest) i
              (rw (sym (append_assoc (encode x) (encode_all xs) rest)) w),
          read_all-between xs (done ++ encode x) rest is (
              still_fits start done (encode x) (encode x) (encode_all xs ++ rest) refl
                (rw (sym (append_assoc (encode x) (encode_all xs) rest)) w)),
          append_assoc done (encode x) (encode_all xs),
        )
        refl

-- Numbers below the limits of their types, texts shorter than the limits of their length types, and
-- plain bytes, in any number and order, are written into a buffer that has the room for their
-- encodings and does not end beyond the address space; no byte after them is touched, and reading
-- the same kinds from the start gives them back and leaves the cursor where the writer left it.
pub read_all-write_all :
    (start : ℕ) (mem : List ℕ) (items : List Item)
    → All IsItem items
    → length (encode_all items) ≤ length mem
    → start + length mem < u64_mod
    → (b : BufferOperator) × (write_all items (new_operator start mem) ≡ ok tt b)
      × (b.mem ≡ encode_all items ++ drop (length (encode_all items)) mem)
      × (read_all (map request_of items) (new_operator start b.mem) ≡ ok items b)
read_all-write_all start mem items i h w =
    let e = encode_all items in
    let old = take (length e) mem in
    let rest = drop (length e) mem in
    let same = take-drop (length e) mem in
    let h1 = length-take (length e) mem h in
    let room = length-append old rest in
    let all = ap length same in
    (
      between start e rest,
      ap (write_all items) (new_operator-between start mem)
          ∙ ap (λ m. write_all items (between start [] m)) (sym same)
          ∙ write_all-between start items [] old rest i h1 (rw same w),
      refl,
      ap (read_all (map request_of items)) (new_operator-between start (e ++ rest))
          ∙ read_all-between start items [] rest i
              (omega (arith, length-append e rest, room, all, h1, w)),
    )
