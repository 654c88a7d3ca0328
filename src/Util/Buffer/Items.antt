-- ===== src/Util/Buffer/Items.antt =====
-- buffer_util.h: numbers, plain bytes and texts, written and read at the cursor.
use aim_rt.Prelude.{
  ℕ, ◌+◌, ◌%◌, ◌<◌, ◌≡◌, refl, sym, ap, ◌∙◌, List, [], ◌∷◌, ◌++◌, arith, length, take, drop, get_or,
  length-append, take-drop, length-take, append_assoc, lt→ltb,
}
use aim_rt.Util.Buffer.{
  BufferOperator, BufferLenType, uint8, uint16, uint32, uint64, Checked, ok, throws, u64_mod, width,
  limit, set_uint8, set_uint16, set_uint32, set_uint64, set_buffer, set_string, set_length,
  get_uint8, get_uint16, get_uint32, get_uint64, get_buffer, get_string, get_length,
  set_buf_from_uint16, set_buf_from_uint32, set_buf_from_uint64, get_uint16_from_buf,
  get_uint32_from_buf, get_uint64_from_buf, read_as, get_bytes,
}
use aim_rt.Util.Buffer.Words.{get_uint16-set, get_uint32-set, get_uint64-set}
use aim_rt.Util.Buffer.Access.{
  between, set_bytes-between, get_bytes-between, beyond-between, store-between,
}

-- What can be written at the cursor, and what is asked for to read it.
pub data Item : Type 0 where
  number : BufferLenType → ℕ → Item
  buffer : List ℕ → Item
  text : BufferLenType → List ℕ → Item

pub data Request : Type 0 where
  a_number a_text : BufferLenType → Request
  a_buffer : ℕ → Request

abbrev pub request_of : Item → Request
request_of (number t n) = a_number t
request_of (buffer bytes) = a_buffer (length bytes)
request_of (text t s) = a_text t

abbrev pub IsItem : Item → Type 0
IsItem (number t n) = n < limit t
IsItem (buffer bytes) = Unit {0}
IsItem (text t s) = length s < limit t

unfoldable pub write : Item → BufferOperator → Checked (Unit {0})
unfolding set_length set_buffer set_string
write (number t n) = set_length t n
write (buffer bytes) = set_buffer bytes
write (text t s) = set_string t s

abbrev item_as : (List ℕ → Item) → Checked (List ℕ) → Checked Item
item_as f (ok s b) = ok (f s) b
item_as f (throws e b) = throws e b

abbrev number_as : (ℕ → Item) → Checked ℕ → Checked Item
number_as f (ok n b) = ok (f n) b
number_as f (throws e b) = throws e b

unfoldable pub read : Request → BufferOperator → Checked Item
unfolding get_length get_buffer get_string
read (a_number t) b = number_as (number t) (get_length t b)
read (a_buffer len) b = item_as buffer (get_buffer len b)
read (a_text t) b = item_as (text t) (get_string t b)

unfoldable pub write_all : List Item → BufferOperator → Checked (Unit {0})
unfolding write
write_all [] b = ok tt b
write_all (x ∷ xs) b = elim (write x b) [ throws e b' ↦ throws e b' | ok _ b' ↦ write_all xs b' ]

abbrev cons_item : Item → Checked (List Item) → Checked (List Item)
cons_item x (ok xs b) = ok (x ∷ xs) b
cons_item x (throws e b) = throws e b

unfoldable pub read_all : List Request → BufferOperator → Checked (List Item)
unfolding read
read_all [] b = ok [] b
read_all (q ∷ qs) b = elim (read q b) [
  | throws e b' ↦ throws e b'
  | ok x b' ↦ cons_item x (read_all qs b')
]

-- The bytes of a number, of an item and of items.
abbrev pub encode_number : BufferLenType → ℕ → List ℕ
encode_number uint8 n = n % 256 ∷ []
encode_number uint16 n = set_buf_from_uint16 n
encode_number uint32 n = set_buf_from_uint32 n
encode_number uint64 n = set_buf_from_uint64 n

abbrev pub encode : Item → List ℕ
encode (number t n) = encode_number t n
encode (buffer bytes) = bytes
encode (text t s) = encode_number t (length s) ++ s

abbrev pub encode_all : List Item → List ℕ
encode_all [] = []
encode_all (x ∷ xs) = encode x ++ encode_all xs

pub length-encode_number : (t : BufferLenType) (n : ℕ) → length (encode_number t n) ≡ width t
unfolding set_buf_from_uint16 set_buf_from_uint32 set_buf_from_uint64
length-encode_number uint8 n = refl
length-encode_number uint16 n = refl
length-encode_number uint32 n = refl
length-encode_number uint64 n = refl

module _ (start : ℕ) (done : List ℕ) where
  set_length-between :
      (t : BufferLenType) (n : ℕ) (old rest : List ℕ)
      → length old ≡ width t
      → start + length (done ++ (old ++ rest)) < u64_mod
      → set_length t n (between start done (old ++ rest))
        ≡ ok tt (between start (done ++ encode_number t n) rest)
  unfolding set_length set_uint8 set_uint16 set_uint32 set_uint64
  set_length-between uint8 n old rest h w = set_bytes-between start done (n % 256 ∷ []) old rest h w
  set_length-between uint16 n old rest h w =
      set_bytes-between start done (set_buf_from_uint16 n) old rest
        (h ∙ sym (length-encode_number uint16 n)) w
  set_length-between uint32 n old rest h w =
      set_bytes-between start done (set_buf_from_uint32 n) old rest
        (h ∙ sym (length-encode_number uint32 n)) w
  set_length-between uint64 n old rest h w =
      set_bytes-between start done (set_buf_from_uint64 n) old rest
        (h ∙ sym (length-encode_number uint64 n)) w

  read-between :
      (f : List ℕ → ℕ) (n : ℕ) (bytes rest : List ℕ)
      → f bytes ≡ n
      → start + length (done ++ (bytes ++ rest)) < u64_mod
      → read_as f (get_bytes (length bytes) (between start done (bytes ++ rest)))
        ≡ ok n (between start (done ++ bytes) rest)
  read-between f n bytes rest e w =
      ap (read_as f) (get_bytes-between start done bytes rest w)
      ∙ ap (λ m. ok m (between start (done ++ bytes) rest)) e

  pub get_length-between :
      (t : BufferLenType) (n : ℕ) (rest : List ℕ)
      → n < limit t
      → start + length (done ++ (encode_number t n ++ rest)) < u64_mod
      → get_length t (between start done (encode_number t n ++ rest))
        ≡ ok n (between start (done ++ encode_number t n) rest)
  unfolding get_length get_uint8 get_uint16 get_uint32 get_uint64
  get_length-between uint8 n rest h w =
      read-between (λ p. get_or p 0 0) n (n % 256 ∷ []) rest (omega (arith, h)) w
  get_length-between uint16 n rest h w =
      unfold set_buf_from_uint16 in
      read-between get_uint16_from_buf n (set_buf_from_uint16 n) rest (get_uint16-set n h) w
  get_length-between uint32 n rest h w =
      unfold set_buf_from_uint32 in
      read-between get_uint32_from_buf n (set_buf_from_uint32 n) rest (get_uint32-set n h) w
  get_length-between uint64 n rest h w =
      unfold set_buf_from_uint64 in
      read-between get_uint64_from_buf n (set_buf_from_uint64 n) rest (get_uint64-set n h) w

module _ (start : ℕ) (done : List ℕ) where
  set_string-between :
      (t : BufferLenType) (s old1 old2 rest : List ℕ)
      → length s < limit t
      → length old1 ≡ width t
      → length old2 ≡ length s
      → start + length (done ++ (old1 ++ (old2 ++ rest))) < u64_mod
      → set_string t s (between start done (old1 ++ (old2 ++ rest)))
        ≡ ok tt (between start (done ++ (encode_number t (length s) ++ s)) rest)
  unfolding set_string
  set_string-between t s old1 old2 rest l h1 h2 w =
      let done' = done ++ encode_number t (length s) in
      rw
        (
          beyond-between start done (width t + length s) (old1 ++ (old2 ++ rest))
              (omega (arith, h1, h2, length-append old1 (old2 ++ rest), length-append old2 rest)) w,
          lt→ltb (length s) (limit t) l,
          set_length-between start done t (length s) old1 (old2 ++ rest) h1 w,
          store-between start done' s old2 rest h2 (
              omega (
                arith,
                w,
                h1,
                length-encode_number t (length s),
                length-append done (old1 ++ (old2 ++ rest)),
                length-append old1 (old2 ++ rest),
                length-append done' (old2 ++ rest),
                length-append done (encode_number t (length s)),
              )),
          append_assoc done (encode_number t (length s)) s,
        )
        refl

  get_string-between :
      (t : BufferLenType) (s rest : List ℕ)
      → length s < limit t
      → start + length (done ++ ((encode_number t (length s) ++ s) ++ rest)) < u64_mod
      → get_string t (between start done ((encode_number t (length s) ++ s) ++ rest))
        ≡ ok s (between start (done ++ (encode_number t (length s) ++ s)) rest)
  unfolding get_string
  get_string-between t s rest l w =
      let done' = done ++ encode_number t (length s) in
      rw
        (
          get_string,
          append_assoc (encode_number t (length s)) s rest,
          get_length-between start done t (length s) (s ++ rest) l
              (rw (sym (append_assoc (encode_number t (length s)) s rest)) w),
          get_bytes-between start done' s rest (
              omega (
                arith,
                w,
                length-append done ((encode_number t (length s) ++ s) ++ rest),
                length-append (encode_number t (length s) ++ s) rest,
                length-append (encode_number t (length s)) s,
                length-append done' (s ++ rest),
                length-append done (encode_number t (length s)),
                length-append s rest,
              )),
          append_assoc done (encode_number t (length s)) s,
        )
        refl

  write_text-between :
      (t : BufferLenType) (s old rest : List ℕ)
      → length s < limit t
      → length old ≡ length (encode_number t (length s) ++ s)
      → start + length (done ++ (old ++ rest)) < u64_mod
      → set_string t s (between start done (old ++ rest))
        ≡ ok tt (between start (done ++ (encode_number t (length s) ++ s)) rest)
  write_text-between t s old rest l h w =
      let o1 = take (width t) old in
      let o2 = drop (width t) old in
      let room = h ∙ length-append (encode_number t (length s)) s in
      let h1 = length-take (width t) old (omega (arith, room, length-encode_number t (length s))) in
      let both = sym (length-append o1 o2) ∙ ap length (take-drop (width t) old) in
      let same = sym (append_assoc o1 o2 rest) ∙ ap (λ o. o ++ rest) (take-drop (width t) old) in
      ap (λ o. set_string t s (between start done o)) (sym same)
      ∙ set_string-between t s o1 o2 rest l h1
          (omega (arith, both, h1, room, length-encode_number t (length s))) (rw same w)

  -- The room an item takes is the room it needs, whatever stood there.
  pub write-between :
      (x : Item) (old rest : List ℕ)
      → IsItem x
      → length old ≡ length (encode x)
      → start + length (done ++ (old ++ rest)) < u64_mod
      → write x (between start done (old ++ rest)) ≡ ok tt (between start (done ++ encode x) rest)
  unfolding write set_buffer
  write-between (number t n) old rest i h w =
      set_length-between start done t n old rest (h ∙ length-encode_number t n) w
  write-between (buffer bytes) old rest i h w = set_bytes-between start done bytes old rest h w
  write-between (text t s) old rest i h w = write_text-between t s old rest i h w

  pub read_item-between :
      (x : Item) (rest : List ℕ)
      → IsItem x
      → start + length (done ++ (encode x ++ rest)) < u64_mod
      → read (request_of x) (between start done (encode x ++ rest))
        ≡ ok x (between start (done ++ encode x) rest)
  unfolding read get_buffer
  read_item-between (number t n) rest i w =
      ap (number_as (number t)) (get_length-between start done t n rest i w)
  read_item-between (buffer bytes) rest i w =
      ap (item_as buffer) (get_bytes-between start done bytes rest w)
  read_item-between (text t s) rest i w = ap (item_as (text t)) (get_string-between t s rest i w)
