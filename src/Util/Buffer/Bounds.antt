-- ===== src/Util/Buffer/Bounds.antt =====
-- buffer_util.h: when a write is refused.
use aim_rt.Prelude.{
  ℕ, ◌+◌, ◌%◌, ◌<◌, ◌≤◌, ◌≡◌, refl, sym, ap, ◌∙◌, List, [], ◌∷◌, ◌++◌, arith, length, take, drop,
  length-append, true, leb, if◌then◌else◌, Bool-cases, inl, inr, length-take, take-drop,
}
use aim_rt.Util.Buffer.{
  BufferLenType, uint8, uint16, uint32, uint64, ok, throws, out_of_bounds, u64_mod, width,
  set_string, set_length, set_bytes, beyond, set_uint8, set_uint16, set_uint32, set_uint64,
  set_buffer, set_buf_from_uint16, set_buf_from_uint32, set_buf_from_uint64,
}
use aim_rt.Util.Buffer.Access.{between}
use aim_rt.Util.Buffer.Items.{
  Item, number, buffer, text, IsItem, encode, encode_number, length-encode_number, write,
  write-between,
}

module _ (start : ℕ) (done rest : List ℕ) where
  beyond_full :
      (n : ℕ)
      → length rest < n
      → start + length (done ++ rest) + n < u64_mod
      → beyond (between start done rest) n ≡ true
  unfolding beyond
  beyond_full n h w = ground (arith, h, w, length-append done rest)

  set_bytes_full :
      (bytes : List ℕ)
      → length rest < length bytes
      → start + length (done ++ rest) + length bytes < u64_mod
      → set_bytes bytes (between start done rest) ≡ throws out_of_bounds (between start done rest)
  unfolding set_bytes
  set_bytes_full bytes h w = rw (beyond_full (length bytes) h w) refl

  set_length_full :
      (t : BufferLenType) (n : ℕ)
      → length rest < width t
      → start + length (done ++ rest) + width t < u64_mod
      → set_length t n (between start done rest) ≡ throws out_of_bounds (between start done rest)
  unfolding set_length set_uint8 set_uint16 set_uint32 set_uint64
  set_length_full uint8 n h w = set_bytes_full (n % 256 ∷ []) h w
  set_length_full uint16 n h w =
      unfold set_buf_from_uint16 in set_bytes_full (set_buf_from_uint16 n) h w
  set_length_full uint32 n h w =
      unfold set_buf_from_uint32 in set_bytes_full (set_buf_from_uint32 n) h w
  set_length_full uint64 n h w =
      unfold set_buf_from_uint64 in set_bytes_full (set_buf_from_uint64 n) h w

  set_string_full :
      (t : BufferLenType) (s : List ℕ)
      → length rest < width t + length s
      → start + length (done ++ rest) + (width t + length s) < u64_mod
      → set_string t s (between start done rest) ≡ throws out_of_bounds (between start done rest)
  unfolding set_string
  set_string_full t s h w = rw (beyond_full (width t + length s) h w) refl

  write_full :
      (x : Item)
      → length rest < length (encode x)
      → start + length (done ++ rest) + length (encode x) < u64_mod
      → write x (between start done rest) ≡ throws out_of_bounds (between start done rest)
  unfolding write set_buffer
  write_full (number t n) h w =
      set_length_full t n (omega (arith, h, length-encode_number t n))
        (omega (arith, w, length-encode_number t n))
  write_full (buffer bytes) h w = set_bytes_full bytes h w
  write_full (text t s) h w =
      let both = length-append (encode_number t (length s)) s in
      let first = length-encode_number t (length s) in
      set_string_full t s (omega (arith, h, both, first)) (omega (arith, w, both, first))

  -- As long as the end of the buffer plus the size of the item stays inside the address space, a
  -- write of a number, of bytes or of a text within the limit of its type succeeds exactly when its
  -- encoding fits into the bytes that remain. It then replaces that many of them, moves the cursor
  -- behind them and leaves all others as they were; if it does not fit, the exception leaves the
  -- buffer and the cursor unchanged.
  pub write-exact :
      (x : Item)
      → IsItem x
      → start + length (done ++ rest) + length (encode x) < u64_mod
      → write x (between start done rest) ≡ (
          if leb (length (encode x)) (length rest)
          then ok tt (between start (done ++ encode x) (drop (length (encode x)) rest))
          else throws out_of_bounds (between start done rest))
  write-exact x i w = elim (Bool-cases (leb (length (encode x)) (length rest))) [
    | inl e ↦
        let n = length (encode x) in
        let fits : n ≤ length rest = ground (arith, e) in
        let same = take-drop n rest in
        rw e (
          ap (λ r. write x (between start done r)) (sym same)
          ∙ write-between start done x (take n rest) (drop n rest) i (length-take n rest fits)
              (rw same (omega (arith, w))))
    | inr e ↦ rw e (write_full x (ground (arith, e)) w)
  ]
