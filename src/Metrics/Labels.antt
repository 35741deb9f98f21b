-- ===== src/Metrics/Labels.antt =====
-- EscapeLabelValue, LabelText and FixedLabelCounts of src/MetricsRegistry.cpp.
use pp_cpp_common.Common.{
  Bool, Bytes, List, [], bytes_eq, false, if◌then◌else◌, is_empty, true, ℕ, ◌%◌, ◌&&◌, ◌++◌, ◌+◌,
  ◌-◌, ◌==◌, ◌^◌, ◌||◌, ◌∷◌,
}

unfoldable pub escape_label_value : Bytes → Bytes
escape_label_value [] = []
escape_label_value (c ∷ cs) =
    let rest = escape_label_value cs in
    if c == 92 || c == 34 then 92 ∷ c ∷ rest else if c == 10 then 92 ∷ 110 ∷ rest else c ∷ rest

-- key="text".
unfoldable pub label_pair : Bytes → Bytes → Bytes
label_pair key text = key ++ 61 ∷ 34 ∷ (text ++ 34 ∷ [])

abbrev pub separator : Bool → Bytes
separator first = if first then [] else 44 ∷ []

unfoldable pub label_pairs : Bool → List (Bytes × Bytes) → Bytes → Bytes → Bytes
label_pairs first [] extra_key extra =
    if is_empty extra_key then [] else separator first ++ label_pair extra_key extra
label_pairs first ((key, value) ∷ labels) extra_key extra =
    separator first
    ++ label_pair key (escape_label_value value)
    ++ label_pairs false labels extra_key extra

unfoldable pub label_text : List (Bytes × Bytes) → Bytes → Bytes → Bytes
label_text labels extra_key extra =
    if is_empty labels && is_empty extra_key
    then []
    else 123 ∷ label_pairs true labels extra_key extra ++ 125 ∷ []

-- FixedLabelCounts, by the entries of the map in any order.
abbrev pub count_of : Bytes → List (Bytes × ℕ) → ℕ
count_of key [] = 0
count_of key ((k, n) ∷ ns) = if bytes_eq k key then n else count_of key ns

unfoldable pub total_count : List (Bytes × ℕ) → ℕ
total_count [] = 0
total_count ((k, n) ∷ ns) = (n + total_count ns) % 2 ^ 64

unfoldable pub known_counts : List (Bytes × ℕ) → List (Bytes × Bytes) → List (Bytes × ℕ)
known_counts by_key [] = []
known_counts by_key ((key, label) ∷ known) =
    (label, count_of key by_key) ∷ known_counts by_key known

-- "other".
abbrev pub other : Bytes
other = 111 ∷ 116 ∷ 104 ∷ 101 ∷ 114 ∷ []

unfoldable pub fixed_label_counts : List (Bytes × ℕ) → List (Bytes × Bytes) → List (Bytes × ℕ)
fixed_label_counts by_key known =
    let counts = known_counts by_key known in
    counts ++ (other, (total_count by_key + 2 ^ 64 - total_count counts) % 2 ^ 64) ∷ []
