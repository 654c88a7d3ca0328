-- ===== src/Util/Buffer.antt =====
-- src/common/util/buffer_util.h on a little-endian machine. `BufferOperator` and
-- `ConstBufferOperator` have the same fields and are one record here: `mem` is what lies between
-- `start_` and `end_`, and `start` and `cur` are addresses. A sum of an address and a length has 64
-- bits. `BufferLenType` has no value but its four, so the `default` branches are not modelled.
pub mod Words
pub mod Access
pub mod Items
pub mod RoundTrip
pub mod Bounds
pub mod Faults
use aim_rt.Prelude.{
  ℕ, ◌+◌, ◌-◌, ◌*◌, ◌/◌, ◌%◌, ◌^◌, Bool, true, false, List, [], ◌∷◌, ◌++◌, ltb, if◌then◌else◌,
  length, take, drop, get_or,
}

abbrev pub u64_mod : ℕ
u64_mod = 2 ^ 64

-- The bytes that are stored, and the number that is read from the bytes at `p`.
unfoldable pub set_buf_from_uint64 : ℕ → List ℕ
set_buf_from_uint64 n =
    n % 256
    ∷ n / 2 ^ 8 % 256
    ∷ n / 2 ^ 16 % 256
    ∷ n / 2 ^ 24 % 256
    ∷ n / 2 ^ 32 % 256
    ∷ n / 2 ^ 40 % 256
    ∷ n / 2 ^ 48 % 256
    ∷ n / 2 ^ 56 % 256
    ∷ []

unfoldable pub get_uint64_from_buf : List ℕ → ℕ
get_uint64_from_buf p =
    (get_or p 0 0
      + get_or p 1 0 * 2 ^ 8
      + get_or p 2 0 * 2 ^ 16
      + get_or p 3 0 * 2 ^ 24
      + get_or p 4 0 * 2 ^ 32
      + get_or p 5 0 * 2 ^ 40
      + get_or p 6 0 * 2 ^ 48
      + get_or p 7 0 * 2 ^ 56)
    % u64_mod

unfoldable pub set_buf_from_uint32 : ℕ → List ℕ
set_buf_from_uint32 n = n % 256 ∷ n / 2 ^ 8 % 256 ∷ n / 2 ^ 16 % 256 ∷ n / 2 ^ 24 % 256 ∷ []

unfoldable pub get_uint32_from_buf : List ℕ → ℕ
get_uint32_from_buf p =
    get_or p 0 0 + get_or p 1 0 * 2 ^ 8 + get_or p 2 0 * 2 ^ 16 + get_or p 3 0 * 2 ^ 24

unfoldable pub set_buf_from_uint16 : ℕ → List ℕ
set_buf_from_uint16 n = n % 256 ∷ n / 2 ^ 8 % 256 ∷ []

unfoldable pub get_uint16_from_buf : List ℕ → ℕ
get_uint16_from_buf p = get_or p 0 0 + get_or p 1 0 * 2 ^ 8

pub data BufferLenType : Type 0 where
  uint8 uint16 uint32 uint64 : BufferLenType

pub record BufferOperator : Type 0 where
  pub start : ℕ
  pub cur : ℕ
  pub mem : List ℕ

pub data Error : Type 0 where
  out_of_bounds length_out_of_range : Error

-- An exception leaves the operator in the state it had reached.
pub data Checked (A : Type 0) : Type 0 where
  ok : A → BufferOperator → Checked A
  throws : Error → BufferOperator → Checked A

abbrev pub end_of : BufferOperator → ℕ
end_of b = b.start + length b.mem

-- `cur_ - start_`
abbrev pub pos_of : BufferOperator → ℕ
pos_of b = b.cur - b.start

abbrev pub new_operator : ℕ → List ℕ → BufferOperator
new_operator start mem = record { start = start; cur = start; mem = mem }

-- `cur_ + len > end_`
unfoldable pub beyond : BufferOperator → ℕ → Bool
beyond b len = ltb (end_of b) ((b.cur + len) % u64_mod)

-- The bytes from `cur_` on.
abbrev pub here : BufferOperator → List ℕ
here b = drop (pos_of b) b.mem

-- `cur_ += len`
unfoldable pub advance : BufferOperator → ℕ → BufferOperator
advance b len = record b { cur = (b.cur + len) % u64_mod }

-- `memcpy(cur_, bytes, ...)` and `cur_ += ...`
unfoldable pub store : BufferOperator → List ℕ → BufferOperator
store b bytes = record b {
  cur = (b.cur + length bytes) % u64_mod;
  mem = take (pos_of b) b.mem ++ (bytes ++ drop (length bytes) (here b));
}

unfoldable pub skip : ℕ → BufferOperator → Checked ℕ
unfolding beyond advance
skip len b =
    let b' = advance b len in
    if beyond b len then throws out_of_bounds b else ok (b'.cur - b.start) b'

unfoldable pub jump_to : ℕ → BufferOperator → Checked (Unit {0})
jump_to pos b =
    if ltb (length b.mem) pos
    then throws out_of_bounds b
    else ok tt (record b { cur = (b.start + pos) % u64_mod })

-- `SetUint8` to `SetUint64` and `SetBuffer`, by the bytes that they write.
unfoldable pub set_bytes : List ℕ → BufferOperator → Checked (Unit {0})
unfolding beyond store
set_bytes bytes b =
    if beyond b (length bytes) then throws out_of_bounds b else ok tt (store b bytes)

unfoldable pub set_uint8 : ℕ → BufferOperator → Checked (Unit {0})
unfolding set_bytes
set_uint8 n = set_bytes (n % 256 ∷ [])

unfoldable pub set_uint16 : ℕ → BufferOperator → Checked (Unit {0})
unfolding set_bytes set_buf_from_uint16
set_uint16 n = set_bytes (set_buf_from_uint16 n)

unfoldable pub set_uint32 : ℕ → BufferOperator → Checked (Unit {0})
unfolding set_bytes set_buf_from_uint32
set_uint32 n = set_bytes (set_buf_from_uint32 n)

unfoldable pub set_uint64 : ℕ → BufferOperator → Checked (Unit {0})
unfolding set_bytes set_buf_from_uint64
set_uint64 n = set_bytes (set_buf_from_uint64 n)

unfoldable pub set_buffer : List ℕ → BufferOperator → Checked (Unit {0})
unfolding set_bytes
set_buffer = set_bytes

-- `static_cast<size_t>(len_type)` and the limit of the type.
abbrev pub width : BufferLenType → ℕ
width uint8 = 1
width uint16 = 2
width uint32 = 4
width uint64 = 8

abbrev pub limit : BufferLenType → ℕ
limit uint8 = 2 ^ 8
limit uint16 = 2 ^ 16
limit uint32 = 2 ^ 32
limit uint64 = 2 ^ 64

unfoldable pub set_length : BufferLenType → ℕ → BufferOperator → Checked (Unit {0})
unfolding set_uint8 set_uint16 set_uint32 set_uint64
set_length uint8 = set_uint8
set_length uint16 = set_uint16
set_length uint32 = set_uint32
set_length uint64 = set_uint64

unfoldable pub set_string : BufferLenType → List ℕ → BufferOperator → Checked (Unit {0})
unfolding beyond store set_length
set_string len_type s b =
    if beyond b (width len_type + length s)
    then throws out_of_bounds b
    else if ltb (length s) (limit len_type)
    then elim (set_length len_type (length s) b) [
      | throws e b' ↦ throws e b'
      | ok _ b' ↦ ok tt (store b' s)
    ]
    else throws length_out_of_range b

-- `GetUint8` to `GetUint64` and `GetBuffer`, by the bytes that they read.
unfoldable pub get_bytes : ℕ → BufferOperator → Checked (List ℕ)
unfolding beyond advance
get_bytes len b =
    if beyond b len then throws out_of_bounds b else ok (take len (here b)) (advance b len)

-- What is read from the bytes.
abbrev pub read_as : {A B : Type 0} → (A → B) → Checked A → Checked B
read_as f (ok a b) = ok (f a) b
read_as f (throws e b) = throws e b

unfoldable pub get_uint8 : BufferOperator → Checked ℕ
unfolding get_bytes
get_uint8 b = read_as (λ p. get_or p 0 0) (get_bytes 1 b)

unfoldable pub get_uint16 : BufferOperator → Checked ℕ
unfolding get_bytes get_uint16_from_buf
get_uint16 b = read_as get_uint16_from_buf (get_bytes 2 b)

unfoldable pub get_uint32 : BufferOperator → Checked ℕ
unfolding get_bytes get_uint32_from_buf
get_uint32 b = read_as get_uint32_from_buf (get_bytes 4 b)

unfoldable pub get_uint64 : BufferOperator → Checked ℕ
unfolding get_bytes get_uint64_from_buf
get_uint64 b = read_as get_uint64_from_buf (get_bytes 8 b)

unfoldable pub get_buffer : ℕ → BufferOperator → Checked (List ℕ)
unfolding get_bytes
get_buffer = get_bytes

unfoldable pub get_length : BufferLenType → BufferOperator → Checked ℕ
unfolding get_uint8 get_uint16 get_uint32 get_uint64
get_length uint8 = get_uint8
get_length uint16 = get_uint16
get_length uint32 = get_uint32
get_length uint64 = get_uint64

-- The length is read, and the operator moved, before the text is looked for.
unfoldable pub get_string : BufferLenType → BufferOperator → Checked (List ℕ)
unfolding get_bytes get_length
get_string len_type b = elim (get_length len_type b) [
  | throws e b' ↦ throws e b'
  | ok len b' ↦ get_bytes len b'
]

unfoldable pub get_remaining_size : BufferOperator → ℕ
get_remaining_size b = end_of b - b.cur

unfoldable pub get_remaining_buffer : BufferOperator → Checked (List ℕ)
unfolding get_buffer get_remaining_size
get_remaining_buffer b = get_buffer (get_remaining_size b) b
