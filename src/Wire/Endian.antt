-- ===== src/Wire/Endian.antt =====
-- The byte-order helpers of Serialize.hpp. A `Machine` says how a word lies in memory; the wire is
-- big endian on both.
use mathlib.Core.List.{reverse-cons, reverse-reverse}
use native.Mathlib.Nat.{pow-suc}
use pp_cpp_common.Common.{
  All, Bool, Bytes, [], ap, arith, false, if◌then◌else◌, length, length-reverse, refl, reverse,
  subst, suc, sym, true, zero, ℕ, ◌%◌, ◌*◌, ◌++◌, ◌+◌, ◌/◌, ◌<◌, ◌^◌, ◌∙◌, ◌∷◌, ◌≡◌,
}

pub data Machine : Type 0 where
  little_endian big_endian : Machine

abbrev pub is_little_endian : Machine → Bool
is_little_endian little_endian = true
is_little_endian big_endian = false

-- The lowest byte first.
unfoldable pub le_bytes : ℕ → ℕ → Bytes
le_bytes zero v = []
le_bytes (suc k) v = v % 256 ∷ le_bytes k (v / 256)

unfoldable pub le_value : Bytes → ℕ
le_value [] = 0
le_value (b ∷ bs) = b + 256 * le_value bs

-- The `k` bytes at which a machine keeps a word, and the word that it reads there.
unfoldable pub memory : Machine → ℕ → ℕ → Bytes
memory little_endian k v = le_bytes k v
memory big_endian k v = reverse (le_bytes k v)

unfoldable pub from_memory : Machine → Bytes → ℕ
from_memory little_endian bs = le_value bs
from_memory big_endian bs = le_value (reverse bs)

-- `swapBytes`: the loop exchanges byte i and byte size - 1 - i.
unfoldable pub swap_bytes : Machine → ℕ → ℕ → ℕ
unfolding memory from_memory
swap_bytes m k v = from_memory m (reverse (memory m k v))

unfoldable pub to_big_endian : Machine → ℕ → ℕ → ℕ
to_big_endian m k v = if is_little_endian m then swap_bytes m k v else v

unfoldable pub from_big_endian : Machine → ℕ → ℕ → ℕ
from_big_endian m k v = if is_little_endian m then swap_bytes m k v else v

abbrev pub IsByte : ℕ → Type 0
IsByte b = b < 256

abbrev pub AreBytes : Bytes → Type 0
AreBytes = All IsByte

pub length-le_bytes : (k v : ℕ) → length (le_bytes k v) ≡ k
unfolding le_bytes
length-le_bytes zero v = refl
length-le_bytes (suc k) v = ap suc (length-le_bytes k (v / 256))

pub le_bytes-AreBytes : (k v : ℕ) → AreBytes (le_bytes k v)
unfolding le_bytes
le_bytes-AreBytes zero v = tt
le_bytes-AreBytes (suc k) v = (omega arith, le_bytes-AreBytes k (v / 256))

pub le_value-le_bytes : (k v : ℕ) → v < 256 ^ k → le_value (le_bytes k v) ≡ v
unfolding le_bytes le_value
le_value-le_bytes zero v h = omega arith
le_value-le_bytes (suc k) v h =
    omega (arith, pow-suc 256 k, le_value-le_bytes k (v / 256) (omega (arith, pow-suc 256 k)))

pub le_bytes-le_value : (bs : Bytes) → AreBytes bs → le_bytes (length bs) (le_value bs) ≡ bs
unfolding le_bytes le_value
le_bytes-le_value [] h = refl
le_bytes-le_value (b ∷ bs) h =
    let low : (b + 256 * le_value bs) % 256 ≡ b = omega arith in
    let high : (b + 256 * le_value bs) / 256 ≡ le_value bs = omega arith in
    rw (low, high, le_bytes-le_value bs h.1)

pub le_value-lt : (bs : Bytes) → AreBytes bs → le_value bs < 256 ^ length bs
unfolding le_value
le_value-lt [] h = omega arith
le_value-lt (b ∷ bs) h = omega (arith, pow-suc 256 (length bs), le_value-lt bs h.1)

AreBytes-append : (as' bs : Bytes) → AreBytes as' → AreBytes bs → AreBytes (as' ++ bs)
AreBytes-append [] bs h k = k
AreBytes-append (a ∷ as') bs h k = (h.0, AreBytes-append as' bs h.1 k)

pub AreBytes-prefix : (as' bs : Bytes) → AreBytes (as' ++ bs) → AreBytes as'
AreBytes-prefix [] bs h = tt
AreBytes-prefix (a ∷ as') bs h = (h.0, AreBytes-prefix as' bs h.1)

pub AreBytes-suffix : (as' bs : Bytes) → AreBytes (as' ++ bs) → AreBytes bs
AreBytes-suffix [] bs h = h
AreBytes-suffix (a ∷ as') bs h = AreBytes-suffix as' bs h.1

pub AreBytes-reverse : (bs : Bytes) → AreBytes bs → AreBytes (reverse bs)
AreBytes-reverse [] h = tt
AreBytes-reverse (b ∷ bs) h =
    rw reverse-cons (AreBytes-append (reverse bs) (b ∷ []) (AreBytes-reverse bs h.1) (h.0, tt))

swap_bytes_lem :
    (k v : ℕ)
    → v < 256 ^ k
    → memory little_endian k (swap_bytes little_endian k v) ≡ reverse (le_bytes k v)
unfolding swap_bytes
swap_bytes_lem k v h =
    let bytes = reverse (le_bytes k v) in
    let size : length bytes ≡ k = length-reverse (le_bytes k v) ∙ length-le_bytes k v in
    unfold memory from_memory in
    subst (λ n. le_bytes n (le_value bytes) ≡ bytes) size
      (le_bytes-le_value bytes (AreBytes-reverse _ (le_bytes-AreBytes k v)))

-- On either byte order toBigEndian puts the bytes of a word in memory with the highest first.
pub to_big_endian-memory :
    (m : Machine) (k v : ℕ)
    → v < 256 ^ k
    → memory m k (to_big_endian m k v) ≡ reverse (le_bytes k v)
unfolding to_big_endian
to_big_endian-memory little_endian k v h = swap_bytes_lem k v h
to_big_endian-memory big_endian k v h = unfold memory in refl

-- On either byte order fromBigEndian reads the number whose bytes stand in memory with the highest
-- first.
pub from_big_endian-memory :
    (m : Machine) (bs : Bytes)
    → AreBytes bs
    → from_big_endian m (length bs) (from_memory m bs) ≡ le_value (reverse bs)
unfolding from_big_endian swap_bytes
from_big_endian-memory little_endian bs h = unfold memory from_memory in rw (le_bytes-le_value bs h)
from_big_endian-memory big_endian bs h = refl

module _ (m : Machine) where
  -- The word that a machine reads from `k` bytes of the wire.
  word_of_wire :
      (k : ℕ) (bs : Bytes)
      → length bs ≡ k
      → AreBytes bs
      → from_big_endian m k (from_memory m bs) ≡ le_value (reverse bs)
  word_of_wire k bs size h =
      subst (λ n. from_big_endian m n (from_memory m bs) ≡ le_value (reverse bs)) size
        (from_big_endian-memory m bs h)

  pub from_wire-to_wire :
      (k v : ℕ)
      → v < 256 ^ k
      → from_big_endian m k (from_memory m (memory m k (to_big_endian m k v))) ≡ v
  from_wire-to_wire k v h =
      let size = length-reverse (le_bytes k v) ∙ length-le_bytes k v in
      rw (to_big_endian-memory m k v h) (
        word_of_wire k _ size (AreBytes-reverse _ (le_bytes-AreBytes k v))
        ∙ ap le_value (reverse-reverse (le_bytes k v))
        ∙ le_value-le_bytes k v h)

  pub to_wire-from_wire :
      (k : ℕ) (bs : Bytes) (v : ℕ)
      → length bs ≡ k
      → AreBytes bs
      → from_big_endian m k (from_memory m bs) ≡ v
      → (bs ≡ memory m k (to_big_endian m k v)) × (v < 256 ^ k)
  to_wire-from_wire k bs v size h e =
      let word : v ≡ le_value (reverse bs) = sym e ∙ word_of_wire k bs size h in
      let whole : length (reverse bs) ≡ k = length-reverse bs ∙ size in
      let bytes = AreBytes-reverse bs h in
      let bound : le_value (reverse bs) < 256 ^ k =
        subst (λ n. le_value (reverse bs) < 256 ^ n) whole (le_value-lt (reverse bs) bytes) in
      let digits : le_bytes k (le_value (reverse bs)) ≡ reverse bs =
        subst (λ n. le_bytes n (le_value (reverse bs)) ≡ reverse bs) whole
          (le_bytes-le_value (reverse bs) bytes) in
      let fits : v < 256 ^ k = rw word bound in
      (sym (to_big_endian-memory m k v fits ∙ rw (word, digits) (reverse-reverse bs)), fits)
