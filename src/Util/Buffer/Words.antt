-- ===== src/Util/Buffer/Words.antt =====
-- buffer_util.h: numbers and their bytes.
use aim_rt.Prelude.{ℕ, ◌^◌, ◌<◌, ◌≡◌, arith}
use aim_rt.Util.Buffer.{
  set_buf_from_uint64, get_uint64_from_buf, set_buf_from_uint32, get_uint32_from_buf,
  set_buf_from_uint16, get_uint16_from_buf,
}

pub get_uint16-set : (n : ℕ) → n < 2 ^ 16 → get_uint16_from_buf (set_buf_from_uint16 n) ≡ n
unfolding get_uint16_from_buf set_buf_from_uint16
get_uint16-set n h = omega arith

pub get_uint32-set : (n : ℕ) → n < 2 ^ 32 → get_uint32_from_buf (set_buf_from_uint32 n) ≡ n
unfolding get_uint32_from_buf set_buf_from_uint32
get_uint32-set n h = omega arith

pub get_uint64-set : (n : ℕ) → n < 2 ^ 64 → get_uint64_from_buf (set_buf_from_uint64 n) ≡ n
unfolding get_uint64_from_buf set_buf_from_uint64
get_uint64-set n h = omega arith
