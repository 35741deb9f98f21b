-- ===== src/Common/Int.antt =====
-- Signed integers over the native numbers, and the two's complement word that stands for one.
use Prim.Native.Nat.{ℕ, suc, ◌+◌, ◌-◌, ◌<◌}
use mathlib.Core.Path.{◌≡◌}
use native.Mathlib.Omega.{arith}
use pp_cpp_common.Common.Tests.{if◌then◌else◌, ltb}

-- `negsuc n` is -(n + 1).
pub data ℤ : Type 0 where
  pos : ℕ → ℤ
  negsuc : ℕ → ℤ

-- `i` lies in the range of a signed integer of which half the words are `half`.
abbrev pub FitsInt : ℕ → ℤ → Type 0
FitsInt half (pos n) = n < half
FitsInt half (negsuc n) = n < half

-- static_cast to the unsigned type, and back.
unfoldable pub to_word : ℕ → ℤ → ℕ
to_word half (pos n) = n
to_word half (negsuc n) = half + half - suc n

unfoldable pub of_word : ℕ → ℕ → ℤ
of_word half w = if ltb w half then pos w else negsuc (half + half - suc w)

pub of_word-to_word : (half : ℕ) (i : ℤ) → FitsInt half i → of_word half (to_word half i) ≡ i
unfolding of_word to_word
of_word-to_word half (pos n) h = ground arith
of_word-to_word half (negsuc n) h = ground arith

pub to_word-of_word : (half w : ℕ) → w < half + half → to_word half (of_word half w) ≡ w
unfolding of_word to_word
to_word-of_word half w h = ground arith

pub to_word-lt : (half : ℕ) (i : ℤ) → FitsInt half i → to_word half i < half + half
unfolding to_word
to_word-lt half (pos n) h = omega arith
to_word-lt half (negsuc n) h = omega arith

pub of_word-FitsInt : (half w : ℕ) → w < half + half → FitsInt half (of_word half w)
unfolding of_word
of_word-FitsInt half w h = ground arith
