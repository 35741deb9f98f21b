-- ===== src/Wire/Tests.antt =====
-- The theorems on the archives at concrete values.
use pp_cpp_common.Common.{Bytes, [], arith, ltb, refl, some, ◌++◌, ◌∷◌, ◌≡◌}
use pp_cpp_common.Results.{err, ok}
use pp_cpp_common.Wire.Endian.{
  AreBytes, big_endian, from_big_endian, from_memory, le_bytes, le_value, little_endian, memory,
  swap_bytes, to_big_endian,
}
use pp_cpp_common.Wire.Extension.{IsLocal, read-IsLocal}
use pp_cpp_common.Wire.Items.{insert_unique, read_unique}
use pp_cpp_common.Wire.Pack.{
  binary_pack, binary_unpack, binary_unpack-binary_pack, binary_unpack-trailing, trailing_message,
}
use pp_cpp_common.Wire.Reader.{read_raw}
use pp_cpp_common.Wire.RoundTrip.{read-write}
use pp_cpp_common.Wire.Scalars.{Scalar, read_byte, read_scalar, read_word, write_scalar, write_word}
use pp_cpp_common.Wire.Strings.{read_chunks, read_chunks-read_raw, read_string}
use pp_cpp_common.Wire.Types.{
  Carrier, Fits, WireType, key_lt, key_u8, ordered_map, pair, read, scalar, string, vector, write,
}

abbrev sample_type : WireType
sample_type = pair (vector (scalar Scalar.u32)) (ordered_map key_u8 string)

abbrev sample : Carrier sample_type
sample = (258 ∷ 7 ∷ [], (1, 65 ∷ []) ∷ (2, []) ∷ [])

sample-Fits : Fits sample_type sample
unfolding key_lt
sample-Fits = (
  (omega arith, (omega arith, (omega arith, tt))),
  (
    omega arith,
    ((omega arith, omega arith), ((omega arith, omega arith), tt)),
    ((refl, tt), (tt, tt)),
  ),
)

read-write_example :
    read little_endian sample_type (write little_endian sample_type sample ++ 9 ∷ [])
    ≡ some (sample, 9 ∷ [])
read-write_example = read-write little_endian sample_type sample (9 ∷ []) sample-Fits

read-IsLocal_example : IsLocal (read big_endian sample_type)
read-IsLocal_example = read-IsLocal big_endian sample_type

binary_unpack-binary_pack_example :
    binary_unpack little_endian sample_type (binary_pack little_endian sample_type sample)
    ≡ ok sample
binary_unpack-binary_pack_example =
    binary_unpack-binary_pack little_endian sample_type sample sample-Fits

binary_unpack-trailing_example :
    binary_unpack big_endian sample_type (binary_pack big_endian sample_type sample ++ 0 ∷ [])
    ≡ err trailing_message
binary_unpack-trailing_example =
    binary_unpack-trailing big_endian sample_type sample 0 [] sample-Fits

pack_u16 : binary_pack little_endian (scalar Scalar.u16) 258 ≡ (1 ∷ []) ++ 2 ∷ []
unfolding binary_pack write write_scalar write_word memory to_big_endian swap_bytes from_memory
    le_bytes le_value
pack_u16 = refl

read_chunks-read_raw_example : read_chunks 3 2 (7 ∷ 8 ∷ 9 ∷ []) ≡ read_raw 2 (7 ∷ 8 ∷ 9 ∷ [])
read_chunks-read_raw_example = read_chunks-read_raw 3 2 (7 ∷ 8 ∷ 9 ∷ []) (omega arith)

abbrev short_bytes : Bytes
short_bytes = 0 ∷ 0 ∷ 0 ∷ 0 ∷ 0 ∷ 0 ∷ 0 ∷ 1 ∷ 65 ∷ 66 ∷ []

short_bytes-AreBytes : AreBytes short_bytes
short_bytes-AreBytes = (
  omega arith,
  (
    omega arith,
    (
      omega arith,
      (
        omega arith,
        (
          omega arith,
          (omega arith, (omega arith, (omega arith, (omega arith, (omega arith, tt))))),
        ),
      ),
    ),
  ),
)

short_string : read_string big_endian short_bytes ≡ some (65 ∷ [], 66 ∷ [])
unfolding read_string read_scalar read_word read_chunks read_raw from_big_endian from_memory
    le_value
short_string = refl

two_bytes : read_unique ltb read_byte 2 [] (1 ∷ 2 ∷ []) ≡ some (1 ∷ 2 ∷ [], [])
unfolding read_unique read_byte insert_unique
two_bytes = refl
