-- ===== src/Metrics/Rendering.antt =====
-- The lines of RenderPrometheus of src/MetricsRegistry.cpp, family by family.
use pp_cpp_common.Common.{
  All, Bytes, List, [], ap, arith, length, refl, suc, ℕ, ◌%◌, ◌++◌, ◌+◌, ◌^◌, ◌∷◌, ◌≡◌, ◌≤◌,
}
use pp_cpp_common.Metrics.Histogram.{accumulate, read}
use pp_cpp_common.Metrics.Labels.{label_text}
use pp_cpp_common.Metrics.Lines.{
  HavePlainKeys, IsPlain, IsPlain-append, PrintsPlain, label_text-IsPlain, line_feeds,
  line_feeds-append, number-IsPlain, sample-line, to_string-IsPlain,
}
use pp_cpp_common.Metrics.Registry.{
  Families, Family, MetricLabels, MetricType, Series, counter, gauge, histogram,
}
use pp_cpp_common.Metrics.Render.{
  Streams, all_series, bucket_lines, bucket_suffix, count_suffix, header_line, header_lines,
  help_prefix, histogram_lines, le_key, number, plus_inf, render, sample, series_lines, sum_suffix,
  type_name, type_prefix,
}
use pp_cpp_common.Value.Numbers.{to_string}

accumulate-length : (so_far : ℕ) (ns : List ℕ) → length (accumulate so_far ns).0 ≡ length ns
unfolding accumulate
accumulate-length so_far [] = refl
accumulate-length so_far (n ∷ ns) = ap suc (accumulate-length ((so_far + n) % 2 ^ 64) ns)

line_feeds-bucket_lines :
    (io : Streams) (name : Bytes) (labels : MetricLabels) (bs ns : List ℕ)
    → PrintsPlain io
    → IsPlain name
    → HavePlainKeys labels
    → length bs ≤ length ns
    → line_feeds (bucket_lines io name labels bs ns) ≡ length bs
unfolding bucket_lines line_feeds
line_feeds-bucket_lines io name labels [] ns p h k l = refl
line_feeds-bucket_lines io name labels (b ∷ bs) [] p h k l = absurd (omega (arith, l))
line_feeds-bucket_lines io name labels (b ∷ bs) (n ∷ ns) p h k l =
    let text = label_text labels le_key (number io b) in
    omega (
      arith,
      line_feeds-append (sample (name ++ bucket_suffix) text (to_string n))
          (bucket_lines io name labels bs ns),
      sample-line (name ++ bucket_suffix) text (to_string n)
          (IsPlain-append name bucket_suffix h refl)
          (label_text-IsPlain labels le_key (number io b) k refl (number-IsPlain io b p))
          (to_string-IsPlain n),
      line_feeds-bucket_lines io name labels bs ns p h k (omega (arith, l)),
    )

-- A series with plain keys and a bucket for each bound and one more.
abbrev pub IsPlainSeries : Series → Type 0
IsPlainSeries s =
    HavePlainKeys s.labels × (length s.observed.buckets ≡ suc (length s.observed.bounds))

-- The samples of a series.
abbrev pub samples : MetricType → Series → ℕ
samples counter s = 1
samples gauge s = 1
samples histogram s = length s.observed.bounds + 3

line_feeds-series_lines :
    (io : Streams) (name : Bytes) (kind : MetricType) (s : Series)
    → PrintsPlain io
    → IsPlain name
    → IsPlainSeries s
    → line_feeds (series_lines io name kind s) ≡ samples kind s
unfolding series_lines histogram_lines read line_feeds
line_feeds-series_lines io name counter s p h k =
    sample-line name (label_text s.labels [] []) (to_string s.counter_value) h
      (label_text-IsPlain s.labels [] [] k.0 refl refl) (to_string-IsPlain s.counter_value)
line_feeds-series_lines io name gauge s p h k =
    sample-line name (label_text s.labels [] []) (number io s.gauge_value) h
      (label_text-IsPlain s.labels [] [] k.0 refl refl) (number-IsPlain io s.gauge_value p)
line_feeds-series_lines io name histogram s p h k =
    let snap = read s.observed in
    let plain = label_text s.labels [] [] in
    let plain' = label_text-IsPlain s.labels [] [] k.0 refl refl in
    let buckets = bucket_lines io name s.labels snap.bounds snap.cumulative in
    let last =
      sample (name ++ bucket_suffix) (label_text s.labels le_key plus_inf) (to_string snap.count) in
    let sum = sample (name ++ sum_suffix) plain (number io snap.sum) in
    let count = sample (name ++ count_suffix) plain (to_string snap.count) in
    omega (
      arith,
      line_feeds-append (buckets ++ last ++ sum) count,
      line_feeds-append (buckets ++ last) sum,
      line_feeds-append buckets last,
      line_feeds-bucket_lines io name s.labels snap.bounds snap.cumulative p h k.0
          (omega (arith, accumulate-length 0 s.observed.buckets, k.1)),
      sample-line (name ++ bucket_suffix) (label_text s.labels le_key plus_inf)
          (to_string snap.count) (IsPlain-append name bucket_suffix h refl)
          (label_text-IsPlain s.labels le_key plus_inf k.0 refl refl)
          (to_string-IsPlain snap.count),
      sample-line (name ++ sum_suffix) plain (number io snap.sum)
          (IsPlain-append name sum_suffix h refl) plain' (number-IsPlain io snap.sum p),
      sample-line (name ++ count_suffix) plain (to_string snap.count)
          (IsPlain-append name count_suffix h refl) plain' (to_string-IsPlain snap.count),
    )

abbrev pub all_samples : MetricType → List Series → ℕ
all_samples kind [] = 0
all_samples kind (s ∷ ss) = samples kind s + all_samples kind ss

line_feeds-all_series :
    (io : Streams) (name : Bytes) (kind : MetricType) (ss : List Series)
    → PrintsPlain io
    → IsPlain name
    → All IsPlainSeries ss
    → line_feeds (all_series io name kind ss) ≡ all_samples kind ss
unfolding line_feeds
line_feeds-all_series io name kind [] p h k = refl
line_feeds-all_series io name kind (s ∷ ss) p h k = omega (
  arith,
  line_feeds-append (series_lines io name kind s) (all_series io name kind ss),
  line_feeds-series_lines io name kind s p h k.0,
  line_feeds-all_series io name kind ss p h k.1,
)

type_name-IsPlain : (kind : MetricType) → IsPlain (type_name kind)
unfolding line_feeds
type_name-IsPlain counter = refl
type_name-IsPlain gauge = refl
type_name-IsPlain histogram = refl

line_feeds-header_line :
    (prefix name text : Bytes)
    → IsPlain prefix
    → IsPlain name
    → IsPlain text
    → line_feeds (header_line prefix name text) ≡ 1
unfolding header_line line_feeds
line_feeds-header_line prefix name text p n t = omega (
  arith,
  line_feeds-append (prefix ++ name) (32 ∷ (text ++ 10 ∷ [])),
  line_feeds-append text (10 ∷ []),
  IsPlain-append prefix name p n,
  t,
)

line_feeds-header_lines :
    (name : Bytes) (f : Family)
    → IsPlain name
    → IsPlain f.help
    → line_feeds (header_lines name f) ≡ 2
unfolding header_lines line_feeds
line_feeds-header_lines name f h k = omega (
  arith,
  line_feeds-append (header_line help_prefix name f.help)
      (header_line type_prefix name (type_name f.kind)),
  line_feeds-header_line help_prefix name f.help refl h k,
  line_feeds-header_line type_prefix name (type_name f.kind) refl h (type_name-IsPlain f.kind),
)

-- The names, the help texts and the keys of labels hold no line feed.
abbrev pub ArePlain : Families → Type 0
ArePlain [] = Unit
ArePlain ((name, f) ∷ fs) =
    (IsPlain name × IsPlain f.help × All IsPlainSeries f.series) × ArePlain fs

-- Two lines of header, and the samples.
abbrev pub lines : Families → ℕ
lines [] = 0
lines ((name, f) ∷ fs) = 2 + all_samples f.kind f.series + lines fs

-- RenderPrometheus writes two lines for each family and one for each sample, whatever the label
-- values hold, when names, help texts and label keys hold no line feed, each histogram has a bucket
-- more than bounds, and streams print none in a number.
pub line_feeds-render :
    (io : Streams) (fs : Families)
    → PrintsPlain io
    → ArePlain fs
    → line_feeds (render io fs) ≡ lines fs
unfolding render line_feeds
line_feeds-render io [] p h = refl
line_feeds-render io ((name, f) ∷ fs) p ((n, t, s), h) =
    let header = header_lines name f in
    let body = all_series io name f.kind f.series in
    omega (
      arith,
      line_feeds-append (header ++ body) (render io fs),
      line_feeds-append header body,
      line_feeds-header_lines name f n t,
      line_feeds-all_series io name f.kind f.series p n s,
      line_feeds-render io fs p h,
    )
