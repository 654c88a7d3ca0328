-- ===== src/Util/Buffer/Access.antt =====
-- buffer_util.h: reads and writes of bytes at a position inside the buffer.
use aim_rt.Prelude.{
  ℕ, ◌+◌, ◌-◌, ◌%◌, ◌<◌, ◌≤◌, ◌≡◌, refl, sym, List, [], ◌++◌, arith, length, take, drop,
  length-append, take-length-append, drop-length-append, append_assoc, false,
}
use aim_rt.Util.Buffer.{
  BufferOperator, new_operator, ok, u64_mod, pos_of, here, beyond, advance, store, set_bytes,
  get_bytes,
}

-- The operator between the bytes behind it and those before it.
abbrev pub between : ℕ → List ℕ → List ℕ → BufferOperator
between start done rest = record { start = start; cur = start + length done; mem = done ++ rest }

pub operator_same :
    (start : ℕ) (c d : ℕ) (xs ys : List ℕ)
    → c ≡ d
    → xs ≡ ys
    → Path BufferOperator
        record { start = start; cur = c; mem = xs }
        record { start = start; cur = d; mem = ys }
operator_same start c d xs ys p q = rw (p, q) refl

module _ (start : ℕ) (done : List ℕ) where
  pos_of-between : (rest : List ℕ) → pos_of (between start done rest) ≡ length done
  pos_of-between rest = omega arith

  here-between : (rest : List ℕ) → here (between start done rest) ≡ rest
  here-between rest = rw (pos_of-between rest) (drop-length-append done rest)

  pub beyond-between :
      (n : ℕ) (rest : List ℕ)
      → n ≤ length rest
      → start + length (done ++ rest) < u64_mod
      → beyond (between start done rest) n ≡ false
  unfolding beyond
  beyond-between n rest h w = ground (arith, h, w, length-append done rest)

  pub store-between :
      (bytes old rest : List ℕ)
      → length old ≡ length bytes
      → start + length (done ++ (old ++ rest)) < u64_mod
      → store (between start done (old ++ rest)) bytes ≡ between start (done ++ bytes) rest
  unfolding store
  store-between bytes old rest h w =
      operator_same start ((start + length done + length bytes) % u64_mod)
        (start + length (done ++ bytes))
        (take (start + length done - start) (done ++ (old ++ rest))
          ++ (bytes
              ++ drop (length bytes) (drop (start + length done - start) (done ++ (old ++ rest)))))
        ((done ++ bytes) ++ rest)
        (omega (
          arith,
          h,
          w,
          length-append done (old ++ rest),
          length-append old rest,
          length-append done bytes,
        ))
        (rw
          (
            pos_of-between (old ++ rest),
            take-length-append done (old ++ rest),
            drop-length-append done (old ++ rest),
            sym h,
            drop-length-append old rest,
          )
          (sym (append_assoc done bytes rest)))

  pub set_bytes-between :
      (bytes old rest : List ℕ)
      → length old ≡ length bytes
      → start + length (done ++ (old ++ rest)) < u64_mod
      → set_bytes bytes (between start done (old ++ rest))
        ≡ ok tt (between start (done ++ bytes) rest)
  unfolding set_bytes
  set_bytes-between bytes old rest h w =
      rw
        (
          beyond-between (length bytes) (old ++ rest) (omega (arith, h, length-append old rest)) w,
          store-between bytes old rest h w,
        )
        refl

  advance-between :
      (bytes rest : List ℕ)
      → start + length (done ++ (bytes ++ rest)) < u64_mod
      → advance (between start done (bytes ++ rest)) (length bytes)
        ≡ between start (done ++ bytes) rest
  unfolding advance
  advance-between bytes rest w =
      operator_same start ((start + length done + length bytes) % u64_mod)
        (start + length (done ++ bytes)) (done ++ (bytes ++ rest)) ((done ++ bytes) ++ rest)
        (omega (
          arith,
          w,
          length-append done (bytes ++ rest),
          length-append bytes rest,
          length-append done bytes,
        ))
        (sym (append_assoc done bytes rest))

  pub get_bytes-between :
      (bytes rest : List ℕ)
      → start + length (done ++ (bytes ++ rest)) < u64_mod
      → get_bytes (length bytes) (between start done (bytes ++ rest))
        ≡ ok bytes (between start (done ++ bytes) rest)
  unfolding get_bytes
  get_bytes-between bytes rest w =
      rw
        (
          beyond-between (length bytes) (bytes ++ rest) (omega (arith, length-append bytes rest)) w,
          here-between (bytes ++ rest),
          take-length-append bytes rest,
          advance-between bytes rest w,
        )
        refl

pub new_operator-between :
    (start : ℕ) (mem : List ℕ) → new_operator start mem ≡ between start [] mem
new_operator-between start mem = operator_same start start (start + 0) mem mem (omega arith) refl
