-- ===== src/Util/Buffer/Faults.antt =====
-- buffer_util.h: a length that wraps around in `cur_ + str_len > end_`.
use aim_rt.Prelude.{
  ℕ, ◌+◌, ◌-◌, ◌%◌, ◌<◌, ◌≤◌, ◌≡◌, refl, ap, List, ◌++◌, arith, length, take, length-append,
  append_assoc, false,
}
use aim_rt.Util.Buffer.{
  uint64, ok, u64_mod, get_string, get_bytes, beyond, set_buf_from_uint64, advance, here,
}
use aim_rt.Util.Buffer.Access.{operator_same, between}
use aim_rt.Util.Buffer.Items.{get_length-between}
use aim_rt.Util.Buffer.RoundTrip.{still_fits}

module _ (start : ℕ) (k : ℕ) (done rest : List ℕ) where
  beyond_wraps :
      0 < k
      → k ≤ length done
      → start + length (done ++ rest) < u64_mod
      → beyond (between start done rest) (u64_mod - k) ≡ false
  unfolding beyond
  beyond_wraps p h w = ground (arith, p, h, w, length-append done rest)

  advance_wraps :
      0 < k
      → k ≤ length done
      → start + length (done ++ rest) < u64_mod
      → advance (between start done rest) (u64_mod - k)
        ≡ record { start = start; cur = start + length done - k; mem = done ++ rest }
  unfolding advance
  advance_wraps p h w =
      operator_same start ((start + length done + (u64_mod - k)) % u64_mod)
        (start + length done - k) (done ++ rest) (done ++ rest)
        (omega (arith, p, h, w, length-append done rest)) refl

  get_bytes_wraps :
      0 < k
      → k ≤ length done
      → start + length (done ++ rest) < u64_mod
      → get_bytes (u64_mod - k) (between start done rest)
        ≡ ok
            (take (u64_mod - k) (here (between start done rest)))
            (record { start = start; cur = start + length done - k; mem = done ++ rest })
  unfolding get_bytes
  get_bytes_wraps p h w = rw (beyond_wraps p h w, advance_wraps p h w) refl

module _ (start : ℕ) (done : List ℕ) (k : ℕ) (rest : List ℕ) where
  -- A stored length of 2^64 - k, where k is positive and at most the number of bytes up to the end of
  -- the length field, passes the bounds check of `GetString`: no exception is thrown, and the cursor
  -- moves k bytes back from the end of the length field.
  pub get_string_rewinds :
      0 < k
      → k ≤ length done + 8
      → start + length (done ++ (set_buf_from_uint64 (u64_mod - k) ++ rest)) < u64_mod
      → (s : List ℕ) × (get_string uint64
            (between start done (set_buf_from_uint64 (u64_mod - k) ++ rest))
          ≡ ok s (record {
            start = start;
            cur = start + (length done + 8) - k;
            mem = done ++ (set_buf_from_uint64 (u64_mod - k) ++ rest);
          }))
  unfolding get_string
  get_string_rewinds p h w =
      let e = set_buf_from_uint64 (u64_mod - k) in
      let all = length-append done e in
      let eight : length e ≡ 8 = unfold set_buf_from_uint64 in refl in
      (
        take (u64_mod - k) (here (between start (done ++ e) rest)),
        rw
            (
              get_string,
              get_length-between start done uint64 (u64_mod - k) rest (omega (arith, p)) w,
              get_bytes_wraps start k (done ++ e) rest p (omega (arith, all, eight, h))
                  (still_fits start done e e rest refl w),
            )
            (ap (ok (take (u64_mod - k) (here (between start (done ++ e) rest)))) (
              operator_same start (start + length (done ++ e) - k) (start + (length done + 8) - k)
                ((done ++ e) ++ rest) (done ++ (e ++ rest)) (omega (arith, all, eight))
                (append_assoc done e rest))),
      )
