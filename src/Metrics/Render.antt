-- ===== src/Metrics/Render.antt =====
-- The collectors and RenderPrometheus of src/MetricsRegistry.cpp.
use pp_cpp_common.Common.{
  Bool, Bytes, List, Option, [], if◌then◌else◌, ltb, none, not, some, suc, zero, ℕ, ◌%◌, ◌&&◌, ◌*◌,
  ◌++◌, ◌+◌, ◌-◌, ◌/◌, ◌==◌, ◌^◌, ◌||◌, ◌∷◌,
}
use pp_cpp_common.Metrics.Histogram.{Snapshot, is_negative, read}
use pp_cpp_common.Metrics.Labels.{label_text}
use pp_cpp_common.Metrics.Registry.{
  Families, Family, MetricLabels, MetricType, Series, counter, gauge, histogram,
}
use pp_cpp_common.Value.Equal.{double_eq, is_nan}
use pp_cpp_common.Value.Numbers.{to_string}

-- How a stream prints a double at a precision, and std::strtod.
pub record Streams : Type 0 where
  pub print_at : ℕ → ℕ → Bytes
  pub read_double : Bytes → ℕ

-- The magnitude of a double that is a whole number below 1e15.
unfoldable pub whole_below : ℕ → Option ℕ
whole_below d =
    let exponent = d / 2 ^ 52 % 2 ^ 11 in
    let significand = 2 ^ 52 + d % 2 ^ 52 in
    let unit = 2 ^ (1075 - exponent) in
    if d % 2 ^ 63 == 0
    then some 0
    else if ltb exponent 1023 || ltb 1072 exponent
    then none
    else if significand % unit == 0 && ltb (significand / unit) (10 ^ 15)
    then some (significand / unit)
    else none

abbrev pub is_inf : ℕ → Bool
is_inf d = d % 2 ^ 63 == 2047 * 2 ^ 52

-- The loop over the precisions: `left` of them are to be tried.
unfoldable pub shortest : Streams → ℕ → ℕ → ℕ → Bytes
shortest io zero precision d = io.print_at 17 d
shortest io (suc left) precision d =
    let text = io.print_at precision d in
    let longer = shortest io left (precision + 1) d in
    if double_eq (io.read_double text) d then text else longer

abbrev pub whole_text : Streams → ℕ → Option ℕ → Bytes
whole_text io d none = shortest io 12 6 d
whole_text io d (some n) = if is_negative d && not (n == 0) then 45 ∷ to_string n else to_string n

-- A minus sign, "Inf" and "NaN" in bytes.
unfoldable pub number : Streams → ℕ → Bytes
number io d =
    if is_inf d
    then (if is_negative d then 45 ∷ 73 ∷ 110 ∷ 102 ∷ [] else 43 ∷ 73 ∷ 110 ∷ 102 ∷ [])
    else if is_nan d
    then 78 ∷ 97 ∷ 78 ∷ []
    else whole_text io d (whole_below d)

-- "name{labels} value" and a line feed.
unfoldable pub sample : Bytes → Bytes → Bytes → Bytes
sample name labels value = name ++ labels ++ 32 ∷ (value ++ 10 ∷ [])

-- "_bucket", "_sum", "_count", "le" and "+Inf".
abbrev pub bucket_suffix : Bytes
bucket_suffix = 95 ∷ 98 ∷ 117 ∷ 99 ∷ 107 ∷ 101 ∷ 116 ∷ []

abbrev pub sum_suffix : Bytes
sum_suffix = 95 ∷ 115 ∷ 117 ∷ 109 ∷ []

abbrev pub count_suffix : Bytes
count_suffix = 95 ∷ 99 ∷ 111 ∷ 117 ∷ 110 ∷ 116 ∷ []

abbrev pub le_key : Bytes
le_key = 108 ∷ 101 ∷ []

abbrev pub plus_inf : Bytes
plus_inf = 43 ∷ 73 ∷ 110 ∷ 102 ∷ []

unfoldable pub bucket_lines : Streams → Bytes → MetricLabels → List ℕ → List ℕ → Bytes
bucket_lines io name labels [] ns = []
bucket_lines io name labels (b ∷ bs) [] = []
bucket_lines io name labels (b ∷ bs) (n ∷ ns) =
    sample (name ++ bucket_suffix) (label_text labels le_key (number io b)) (to_string n)
    ++ bucket_lines io name labels bs ns

unfoldable pub histogram_lines : Streams → Bytes → MetricLabels → Snapshot → Bytes
histogram_lines io name labels snap =
    let plain = label_text labels [] [] in
    bucket_lines io name labels snap.bounds snap.cumulative
    ++ sample (name ++ bucket_suffix) (label_text labels le_key plus_inf) (to_string snap.count)
    ++ sample (name ++ sum_suffix) plain (number io snap.sum)
    ++ sample (name ++ count_suffix) plain (to_string snap.count)

unfoldable pub series_lines : Streams → Bytes → MetricType → Series → Bytes
series_lines io name counter s = sample name (label_text s.labels [] []) (to_string s.counter_value)
series_lines io name gauge s = sample name (label_text s.labels [] []) (number io s.gauge_value)
series_lines io name histogram s = histogram_lines io name s.labels (read s.observed)

abbrev pub all_series : Streams → Bytes → MetricType → List Series → Bytes
all_series io name kind [] = []
all_series io name kind (s ∷ ss) = series_lines io name kind s ++ all_series io name kind ss

abbrev pub type_name : MetricType → Bytes
type_name counter = 99 ∷ 111 ∷ 117 ∷ 110 ∷ 116 ∷ 101 ∷ 114 ∷ []
type_name gauge = 103 ∷ 97 ∷ 117 ∷ 103 ∷ 101 ∷ []
type_name histogram = 104 ∷ 105 ∷ 115 ∷ 116 ∷ 111 ∷ 103 ∷ 114 ∷ 97 ∷ 109 ∷ []

-- "# HELP " and "# TYPE ".
abbrev pub help_prefix : Bytes
help_prefix = 35 ∷ 32 ∷ 72 ∷ 69 ∷ 76 ∷ 80 ∷ 32 ∷ []

abbrev pub type_prefix : Bytes
type_prefix = 35 ∷ 32 ∷ 84 ∷ 89 ∷ 80 ∷ 69 ∷ 32 ∷ []

unfoldable pub header_line : Bytes → Bytes → Bytes → Bytes
header_line prefix name text = prefix ++ name ++ 32 ∷ (text ++ 10 ∷ [])

unfoldable pub header_lines : Bytes → Family → Bytes
header_lines name f =
    header_line help_prefix name f.help ++ header_line type_prefix name (type_name f.kind)

unfoldable pub render : Streams → Families → Bytes
render io [] = []
render io ((name, f) ∷ fs) =
    header_lines name f ++ all_series io name f.kind f.series ++ render io fs

-- A collector is what it does to the families; an empty std::function is none.
abbrev pub Collector : Type 0
Collector = Option (Families → Families)

pub record MetricsRegistry : Type 0 where
  pub families : Families
  pub collectors : List (ℕ × Collector)
  pub next_collector : ℕ

-- std::map::emplace, by the order of the ids.
unfoldable pub emplace : ℕ → Collector → List (ℕ × Collector) → List (ℕ × Collector)
emplace id c [] = (id, c) ∷ []
emplace id c ((j, d) ∷ cs) =
    if ltb id j
    then (id, c) ∷ (j, d) ∷ cs
    else if id == j
    then (j, d) ∷ cs
    else (j, d) ∷ emplace id c cs

unfoldable pub add_collector : Collector → MetricsRegistry → ℕ × MetricsRegistry
add_collector c m =
    let id = (m.next_collector + 1) % 2 ^ 64 in
    (id, record m { collectors = emplace id c m.collectors; next_collector = id })

abbrev pub without : ℕ → List (ℕ × Collector) → List (ℕ × Collector)
without id [] = []
without id ((j, c) ∷ cs) = if j == id then without id cs else (j, c) ∷ without id cs

unfoldable pub remove_collector : ℕ → MetricsRegistry → MetricsRegistry
remove_collector id m = record m { collectors = without id m.collectors }

abbrev pub collect : Collector → Families → Families
collect none fs = fs
collect (some c) fs = c fs

unfoldable pub run_collectors : List (ℕ × Collector) → Families → Families
run_collectors [] fs = fs
run_collectors ((id, c) ∷ cs) fs = run_collectors cs (collect c fs)

unfoldable pub render_prometheus : Streams → MetricsRegistry → Bytes × MetricsRegistry
render_prometheus io m =
    let fs = run_collectors m.collectors m.families in (render io fs, record m { families = fs })
