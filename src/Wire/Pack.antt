-- ===== src/Wire/Pack.antt =====
-- include/common/BinaryPack.hpp: binaryPack and binaryUnpack at every wire type.
use pp_cpp_common.Common.{
  Bytes, Option-cases, [], append-nil, inl, inr, none, some, ℕ, ◌++◌, ◌∷◌, ◌≡◌,
}
use pp_cpp_common.Results.{Error, Roe, ascii, err, error_of, ok}
use pp_cpp_common.Wire.Endian.{Machine}
use pp_cpp_common.Wire.Extension.{read-IsLocal}
use pp_cpp_common.Wire.RoundTrip.{read-write}
use pp_cpp_common.Wire.Types.{Carrier, Fits, WireType, read, write}

abbrev pub failed_message : Error
failed_message = error_of (ascii "Failed to deserialize binary data")

abbrev pub trailing_message : Error
trailing_message = error_of (ascii "Trailing bytes after binary decode")

-- `exactEnd()`, on a value that was read and what is left of the stream.
unfoldable pub exact_end {ℓ} : {A : Type ℓ} → A → Bytes → Roe A
exact_end v [] = ok v
exact_end v (b ∷ bs) = err trailing_message

module _ (m : Machine) where
  unfoldable pub binary_pack : (t : WireType) → Carrier t → Bytes
  binary_pack t v = write m t v

  unfoldable pub binary_unpack : (t : WireType) → Bytes → Roe (Carrier t)
  unfolding exact_end
  binary_unpack t bs = elim (read m t bs) [
    | none ↦ err failed_message
    | some (v, rest) ↦ exact_end v rest
  ]

append-cons_ne_nil : (rest : Bytes) (b : ℕ) (bs : Bytes) → rest ++ b ∷ bs ≡ [] → ⊥
append-cons_ne_nil [] b bs h = cc
append-cons_ne_nil (r ∷ rest) b bs h = cc

module _ (m : Machine) where
  -- binaryUnpack of binaryPack is the value, for every wire type and either byte order, for values
  -- that their C++ types hold and strings of at most 64 MB.
  pub binary_unpack-binary_pack :
      (t : WireType) (v : Carrier t) → Fits t v → binary_unpack m t (binary_pack m t v) ≡ ok v
  unfolding binary_pack binary_unpack
  binary_unpack-binary_pack t v h =
      let whole : read m t (write m t v) ≡ some (v, []) =
        rw append-nil at (read-write m t v [] h) in
      rw (whole, binary_unpack)

  -- binaryUnpack refuses a packed value with bytes behind it, with the message on trailing bytes,
  -- for values that their C++ types hold and strings of at most 64 MB.
  pub binary_unpack-trailing :
      (t : WireType) (v : Carrier t) (b : ℕ) (bs : Bytes)
      → Fits t v
      → binary_unpack m t (binary_pack m t v ++ b ∷ bs) ≡ err trailing_message
  unfolding binary_pack binary_unpack
  binary_unpack-trailing t v b bs h = rw (read-write m t v (b ∷ bs) h, binary_unpack)

  -- binaryUnpack refuses a packed value that lost bytes at its end, with the message on failure.
  pub binary_unpack-truncated :
      (t : WireType) (v : Carrier t) (front : Bytes) (b : ℕ) (bs : Bytes)
      → Fits t v
      → binary_pack m t v ≡ front ++ b ∷ bs
      → binary_unpack m t front ≡ err failed_message
  unfolding binary_pack binary_unpack
  binary_unpack-truncated t v front b bs h e = elim (Option-cases (read m t front)) [
    | inl failed ↦ rw (failed, binary_unpack)
    | inr ((w, rest), got) ↦
        let longer = read-IsLocal m t front w rest (b ∷ bs) got in
        let whole : read m t (write m t v) ≡ some (v, []) =
          rw append-nil at (read-write m t v [] h) in
        absurd (append-cons_ne_nil rest b bs (cc (longer, whole)))
  ]
