-- ===== src/Util/BufferExamples.antt =====
-- buffer_util.h: a buffer of eight bytes.
use aim_rt.Prelude.{
  ℕ, ◌+◌, ◌-◌, ◌≡◌, refl, List, [], ◌∷◌, ◌++◌, map, arith, length, drop, leb, if◌then◌else◌,
}
use aim_rt.Util.Buffer.{
  BufferOperator, uint8, uint16, uint64, ok, throws, out_of_bounds, u64_mod, new_operator,
  get_string, set_buf_from_uint64, set_buf_from_uint16,
}
use aim_rt.Util.Buffer.Access.{between}
use aim_rt.Util.Buffer.Items.{
  Item, number, text, encode, encode_all, write, write_all, read_all, request_of,
}
use aim_rt.Util.Buffer.RoundTrip.{read_all-write_all}
use aim_rt.Util.Buffer.Bounds.{write-exact}
use aim_rt.Util.Buffer.Faults.{get_string_rewinds}

abbrev demo_mem : List ℕ
demo_mem = 0 ∷ 0 ∷ 0 ∷ 0 ∷ 0 ∷ 0 ∷ 0 ∷ 9 ∷ []

abbrev demo_items : List Item
demo_items = number uint16 513 ∷ text uint8 (104 ∷ 105 ∷ []) ∷ []

demo_bytes : encode_all demo_items ≡ 1 ∷ 2 ∷ 2 ∷ 104 ∷ 105 ∷ []
unfolding set_buf_from_uint16
demo_bytes = refl

read_all-write_all_example :
    (b : BufferOperator) × (write_all demo_items (new_operator 4096 demo_mem) ≡ ok tt b)
    × (b.mem ≡ encode_all demo_items ++ drop (length (encode_all demo_items)) demo_mem)
    × (read_all (map request_of demo_items) (new_operator 4096 b.mem) ≡ ok demo_items b)
read_all-write_all_example =
    read_all-write_all 4096 demo_mem demo_items (omega arith, (omega arith, tt))
      (unfold set_buf_from_uint16 in omega arith) (omega arith)

write-exact_example : write (number uint16 513) (between 4096 (7 ∷ []) (8 ∷ [])) ≡ (
    if leb (length (encode (number uint16 513))) (length {A = ℕ} (8 ∷ []))
    then ok tt (
        between 4096
          ((7 ∷ []) ++ encode (number uint16 513))
          (drop (length (encode (number uint16 513))) (8 ∷ [])))
    else throws out_of_bounds (between 4096 (7 ∷ []) (8 ∷ [])))
write-exact_example =
    write-exact 4096 (7 ∷ []) (8 ∷ []) (number uint16 513) (omega arith)
      (unfold set_buf_from_uint16 in omega arith)

get_string_rewinds_example :
    (s : List ℕ) × (get_string uint64 (between 4096 [] (set_buf_from_uint64 (u64_mod - 8) ++ []))
      ≡ ok s (record {
        start = 4096;
        cur = 4096 + (length {A = ℕ} [] + 8) - 8;
        mem = set_buf_from_uint64 (u64_mod - 8) ++ [];
      }))
get_string_rewinds_example =
    get_string_rewinds 4096 [] 8 [] (omega arith) (omega arith)
      (unfold set_buf_from_uint64 in omega arith)
