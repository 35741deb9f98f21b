-- ===== src/Metrics/Tests.antt =====
-- The theorems on the metrics at concrete instruments. The doubles are 1.0, 2.0, 2.5 and 4.0.
use pp_cpp_common.Common.{
  Bytes, List, Option, [], arith, bytes_eq, map, none, refl, some, ℕ, ◌*◌, ◌++◌, ◌+◌, ◌^◌, ◌∷◌, ◌≡◌,
}
use pp_cpp_common.Metrics.Buckets.{AreAscending, at_most, observe_all, read-observe}
use pp_cpp_common.Metrics.Counts.{fixed_label_counts-other, labelled, sum_of, unknown}
use pp_cpp_common.Metrics.Histogram.{
  accumulate, bump, double_lt, lower_bound, new_histogram, observe, read,
}
use pp_cpp_common.Metrics.Labels.{
  escape_label_value, fixed_label_counts, label_pair, label_pairs, label_text, other,
}
use pp_cpp_common.Metrics.Lines.{line_feeds}
use pp_cpp_common.Metrics.Reading.{label_text-injective}
use pp_cpp_common.Metrics.References.{find-calls, registered_as}
use pp_cpp_common.Metrics.Registry.{
  Families, Family, MetricLabels, Series, call, calls, counter, family_of, find, finds, gauge,
  histogram, increments, labels_eq, new_series, place_of, put_family, update_family, with_series,
}
use pp_cpp_common.Metrics.Render.{Streams, render}
use pp_cpp_common.Metrics.Rendering.{ArePlain, line_feeds-render, lines}
use pp_cpp_common.Value.Equal.{is_nan}
use pp_cpp_common.Wire.Types.{bytes_lt}

abbrev one : ℕ
one = 1023 * 2 ^ 52

abbrev two : ℕ
two = 1024 * 2 ^ 52

abbrev two_and_a_half : ℕ
two_and_a_half = 1024 * 2 ^ 52 + 2 ^ 50

abbrev four : ℕ
four = 1025 * 2 ^ 52

-- Addition does not matter to the counts.
abbrev plus : ℕ → ℕ → ℕ
plus a b = b

abbrev bounds : List ℕ
bounds = one ∷ two ∷ []

ascending : AreAscending bounds
unfolding double_lt is_nan
ascending = ((refl, tt), (tt, tt))

counted_values :
    (read
      (observe_all plus (four ∷ two ∷ two_and_a_half ∷ one ∷ []) (new_histogram bounds))).cumulative
    ≡ 1 ∷ 2 ∷ 4 ∷ []
unfolding read observe new_histogram accumulate bump lower_bound double_lt is_nan
counted_values = refl

read-observe_example :
    let snap = read (observe_all plus (four ∷ two ∷ one ∷ []) (new_histogram bounds)) in
    (snap.bounds ≡ bounds)
    × (snap.cumulative ≡ map (λ b. at_most b (four ∷ two ∷ one ∷ [])) bounds ++ 3 ∷ [])
    × (snap.count ≡ 3)
read-observe_example = read-observe plus bounds (four ∷ two ∷ one ∷ []) ascending (omega arith)

abbrev digit : Bytes
digit = 49 ∷ []

-- a="x" and a="x\"y".
abbrev labels : MetricLabels
labels = (97 ∷ [], 120 ∷ []) ∷ []

abbrev quoted : MetricLabels
quoted = (97 ∷ [], 120 ∷ 34 ∷ 121 ∷ []) ∷ []

quoted_text : label_text quoted [] [] ≡ 123 ∷ 97 ∷ 61 ∷ 34 ∷ 120 ∷ 92 ∷ 34 ∷ 121 ∷ 34 ∷ 125 ∷ []
unfolding label_text label_pairs label_pair escape_label_value
quoted_text = refl

label_text-injective_example : (quoted ≡ quoted) × (digit ≡ digit)
label_text-injective_example =
    label_text-injective quoted quoted digit digit ((refl, tt), tt) ((refl, tt), tt) refl

abbrev name : Bytes
name = 109 ∷ []

abbrev later : Families
later =
    calls plus
      (finds name [] gauge quoted []
        ∷ increments (record { name = name; place = 0 }) 5
        ∷ finds (97 ∷ []) [] histogram labels bounds
        ∷ [])
      (find name (104 ∷ []) counter labels [] []).1

find-calls_example :
    ((find name [] gauge labels bounds later).0 ≡ (find name (104 ∷ []) counter labels [] []).0)
    × (registered_as (family_of name later)
        ≡ registered_as (family_of name (find name (104 ∷ []) counter labels [] []).1))
find-calls_example =
    find-calls plus
      (finds name [] gauge quoted []
        ∷ increments (record { name = name; place = 0 }) 5
        ∷ finds (97 ∷ []) [] histogram labels bounds
        ∷ [])
      name (104 ∷ []) [] counter gauge labels [] bounds []

counters_of : Option Family → List ℕ
counters_of none = []
counters_of (some f) = map (λ (s : Series). s.counter_value) f.series

incremented : counters_of (family_of name later) ≡ 5 ∷ 0 ∷ []
unfolding counters_of find call family_of update_family put_family with_series place_of new_series
    labels_eq bytes_eq bytes_lt
incremented = refl

abbrev by_key : List (Bytes × ℕ)
by_key = (97 ∷ [], 3) ∷ (98 ∷ [], 4) ∷ (99 ∷ [], 5) ∷ []

abbrev known : List (Bytes × Bytes)
known = (98 ∷ [], 66 ∷ []) ∷ (100 ∷ [], 68 ∷ []) ∷ []

fixed_label_counts-other_example :
    fixed_label_counts by_key known
    ≡ map (labelled by_key) known ++ (other, sum_of (unknown known by_key)) ∷ []
fixed_label_counts-other_example =
    fixed_label_counts-other by_key known
      (unfold bytes_eq in ((refl, (refl, tt)), ((refl, tt), (tt, tt))))
      (unfold bytes_eq in ((refl, tt), (tt, tt))) (omega arith)

-- A stream that prints every double as 1.
abbrev streams : Streams
streams = record { print_at = λ p d. digit; read_double = λ bs. one }

plain_names : ArePlain later
unfolding line_feeds find call family_of update_family put_family with_series place_of new_series
    labels_eq bytes_eq bytes_lt new_histogram
plain_names = (
  (refl, refl, ((((refl, tt), refl)), tt)),
  ((refl, refl, (((refl, tt), refl), (((refl, tt), refl), tt))), tt),
)

line_feeds-render_example : line_feeds (render streams later) ≡ lines later
line_feeds-render_example =
    line_feeds-render streams later (λ p d. unfold line_feeds in refl) plain_names
