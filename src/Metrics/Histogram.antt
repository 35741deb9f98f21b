-- ===== src/Metrics/Histogram.antt =====
-- MetricHistogram of src/MetricsRegistry.cpp. A double is its bit pattern.
use pp_cpp_common.Common.{
  Bool, List, [], false, if◌then◌else◌, leb, ltb, not, suc, true, zero, ℕ, ◌%◌, ◌&&◌, ◌+◌, ◌==◌,
  ◌^◌, ◌∷◌,
}
use pp_cpp_common.Value.Equal.{is_nan}

-- The < of doubles: a NaN is not below nor above anything, and the zeros are equal.
abbrev pub is_negative : ℕ → Bool
is_negative d = leb (2 ^ 63) d

abbrev pub below : Bool → Bool → ℕ → ℕ → Bool
below false false m n = ltb m n
below false true m n = false
below true false m n = not (m == 0 && n == 0)
below true true m n = ltb n m

unfoldable pub double_lt : ℕ → ℕ → Bool
double_lt a b =
    not (is_nan a)
    && not (is_nan b)
    && below (is_negative a) (is_negative b) (a % 2 ^ 63) (b % 2 ^ 63)

-- std::lower_bound of ascending bounds: the first that does not lie below the value.
unfoldable pub lower_bound : List ℕ → ℕ → ℕ
lower_bound [] value = 0
lower_bound (b ∷ bs) value =
    let rest = lower_bound bs value in if double_lt b value then suc rest else 0

-- fetch_add of 1 at an index.
unfoldable pub bump : ℕ → List ℕ → List ℕ
bump i [] = []
bump zero (n ∷ ns) = (n + 1) % 2 ^ 64 ∷ ns
bump (suc i) (n ∷ ns) = n ∷ bump i ns

abbrev pub zeros : List ℕ → List ℕ
zeros [] = 0 ∷ []
zeros (b ∷ bs) = 0 ∷ zeros bs

pub record MetricHistogram : Type 0 where
  pub bounds : List ℕ
  pub buckets : List ℕ
  pub sum : ℕ
  pub count : ℕ

unfoldable pub new_histogram : List ℕ → MetricHistogram
new_histogram bounds = record { bounds = bounds; buckets = zeros bounds; sum = 0; count = 0 }

-- `plus` adds doubles.
unfoldable pub observe : (ℕ → ℕ → ℕ) → ℕ → MetricHistogram → MetricHistogram
observe plus value h = record h {
  buckets = bump (lower_bound h.bounds value) h.buckets;
  sum = plus h.sum value;
  count = (h.count + 1) % 2 ^ 64;
}

pub record Snapshot : Type 0 where
  pub bounds : List ℕ
  pub cumulative : List ℕ
  pub sum : ℕ
  pub count : ℕ

-- The loop of Read: the counts up to each bucket, and the last of them.
unfoldable pub accumulate : ℕ → List ℕ → List ℕ × ℕ
accumulate so_far [] = ([], so_far)
accumulate so_far (n ∷ ns) =
    let now = (so_far + n) % 2 ^ 64 in let (more, total) = accumulate now ns in (now ∷ more, total)

unfoldable pub read : MetricHistogram → Snapshot
read h =
    let (cumulative, total) = accumulate 0 h.buckets in
    record { bounds = h.bounds; cumulative = cumulative; sum = h.sum; count = total }
