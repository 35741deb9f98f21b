-- ===== src/Wire/Strings.antt =====
-- `write(const std::string &)` and `read(std::string &)`: a u64 length, then the bytes, which are
-- read in chunks so that a declared length allocates nothing that the input does not back.
use mathlib.Core.Path.{fun_ext}
use pp_cpp_common.Common.{
  Bool-cases, Bytes, Option, [], ap, append_assoc, arith, if◌then◌else◌, inl, inr, leb, leb→le,
  length, le→leb, ltb, min, none, refl, some, suc, sym, zero, ℕ, ◌*◌, ◌++◌, ◌+◌, ◌-◌, ◌/◌, ◌∙◌, ◌∷◌,
  ◌≡◌, ◌≤◌,
}
use pp_cpp_common.Wire.Endian.{AreBytes, Machine}
use pp_cpp_common.Wire.Reader.{
  >>=-eq-some, Reader, guard, guard-eq-some, pure, read_raw, read_raw-append, read_raw_sound, ◌>>=◌,
  ◌>>◌,
}
use pp_cpp_common.Wire.Scalars.{
  read_scalar, read_scalar-write_scalar, read_word_sound, u64, write_scalar,
}

abbrev pub max_string_size : ℕ
max_string_size = 64 * 1024 * 1024

abbrev pub max_reserve_bytes : ℕ
max_reserve_bytes = 64 * 1024 * 1024

abbrev pub chunk : ℕ
chunk = 64 * 1024

-- `available` is what the stream's buffer reports, or `none` where it reports a negative number.
pub bounded_reserve_count : ℕ → Option ℕ → ℕ → ℕ
bounded_reserve_count size_of_item none requested = min requested (max_reserve_bytes / size_of_item)
bounded_reserve_count size_of_item (some available) requested =
    min (min requested available) (max_reserve_bytes / size_of_item)

-- `while (done < size)`, on the bytes still to read; each round reads at least one.
unfoldable pub read_chunks : ℕ → ℕ → Reader Bytes
read_chunks zero left = pure []
read_chunks (suc fuel) left =
    let more = do
      piece ← read_raw (min chunk left)
      others ← read_chunks fuel (left - min chunk left)
      pure (piece ++ others)
    in if ltb 0 left then more else pure []

module _ (m : Machine) where
  unfoldable pub write_string : Bytes → Bytes
  write_string s = write_scalar m u64 (length s) ++ s

  unfoldable pub read_string : Reader Bytes
  read_string = do size ← read_scalar m u64; guard (leb size max_string_size); read_chunks size size

read_raw-add :
    (i j : ℕ) (bs : Bytes)
    → read_raw (i + j) bs ≡ (do piece ← read_raw i; others ← read_raw j; pure (piece ++ others)) bs
unfolding read_raw
read_raw-add zero j bs = let e : 0 + j ≡ j = omega arith in rw e (ground arith)
read_raw-add (suc i) j [] = let e : suc i + j ≡ suc (i + j) = omega arith in rw e
read_raw-add (suc i) j (b ∷ bs) =
    let e : suc i + j ≡ suc (i + j) = omega arith in rw e (ground (arith, read_raw-add i j bs))

-- The loop that reads a string by chunks of 64 KB reads what one read of the whole length would,
-- within as many rounds as bytes.
pub read_chunks-read_raw :
    (fuel left : ℕ) (bs : Bytes) → left ≤ fuel → read_chunks fuel left bs ≡ read_raw left bs
unfolding read_chunks
read_chunks-read_raw zero left bs h = let e : left ≡ 0 = omega arith in unfold read_raw in rw e
read_chunks-read_raw (suc fuel) left bs h = elim (Bool-cases (ltb 0 left)) [
  | inl more ↦
      let i = min chunk left in
      let j = left - i in
      let rest : read_chunks fuel j ≡ read_raw j =
        fun_ext (λ r. read_chunks-read_raw fuel j r (ground arith)) in
      let whole : i + j ≡ left = omega arith in
      rw (more, rest) (sym (read_raw-add i j bs) ∙ ap (λ n. read_raw n bs) whole)
  | inr done ↦ let e : left ≡ 0 = ground arith in unfold read_raw in rw (done, e) refl
]

module _ (m : Machine) where
  pub read_string-write_string :
      (s rest : Bytes)
      → length s ≤ max_string_size
      → read_string m (write_string m s ++ rest) ≡ some (s, rest)
  unfolding read_string write_string
  read_string-write_string s rest h =
      let size = length s in
      let front = read_scalar-write_scalar m u64 size (s ++ rest) (omega arith) in
      rw (append_assoc, front, ◌>>=◌)
        (rw
          (le→leb size max_string_size h, read_chunks-read_raw size size (s ++ rest) (omega arith))
          (read_raw-append s rest))

  -- A string that is read from bytes is what write would put there, and is no longer than 64 MB.
  pub read_string_sound :
      (bs s rest : Bytes)
      → AreBytes bs
      → read_string m bs ≡ some (s, rest)
      → (bs ≡ write_string m s ++ rest) × (length s ≤ max_string_size)
  unfolding read_string write_string
  read_string_sound bs s rest h e =
      let (size, tail, e₁, e₂) = >>=-eq-some (read_scalar m u64) _ bs e in
      let (front, fits) = read_word_sound m 8 bs size tail h (unfold read_scalar in e₁) in
      let (small, e₃) = guard-eq-some (leb size max_string_size) (read_chunks size size) tail e₂ in
      let loop = read_chunks-read_raw size size tail (omega arith) in
      let (eq, len) = read_raw_sound size tail s rest (sym loop ∙ e₃) in
      (unfold write_scalar in rw (append_assoc, len, ← eq) front, rw len (leb→le _ _ small))
