-- ===== src/Metrics/Lines.antt =====
-- The lines that RenderPrometheus of src/MetricsRegistry.cpp writes.
use pp_cpp_common.Common.{
  All, Bool, Bool-cases, Bytes, Option, [], arith, false, if-holds, if◌then◌else◌, inl, inr,
  is_empty, ltb, none, not, refl, some, suc, true, zero, ℕ, ◌%◌, ◌&&◌, ◌++◌, ◌+◌, ◌/◌, ◌==◌, ◌||◌,
  ◌∷◌, ◌≡◌,
}
use pp_cpp_common.Metrics.Histogram.{is_negative}
use pp_cpp_common.Metrics.Labels.{
  escape_label_value, label_pair, label_pairs, label_text, separator,
}
use pp_cpp_common.Metrics.Registry.{MetricLabels}
use pp_cpp_common.Metrics.Render.{
  Streams, is_inf, number, sample, shortest, whole_below, whole_text,
}
use pp_cpp_common.Value.Equal.{double_eq, is_nan}
use pp_cpp_common.Value.Numbers.{decimal, to_string}

unfoldable pub line_feeds : Bytes → ℕ
line_feeds [] = 0
line_feeds (b ∷ bs) = if b == 10 then suc (line_feeds bs) else line_feeds bs

abbrev pub IsPlain : Bytes → Type 0
IsPlain bs = line_feeds bs ≡ 0

pub line_feeds-append : (xs ys : Bytes) → line_feeds (xs ++ ys) ≡ line_feeds xs + line_feeds ys
unfolding line_feeds
line_feeds-append [] ys = omega arith
line_feeds-append (x ∷ xs) ys = ground (arith, line_feeds-append xs ys)

pub IsPlain-append : (xs ys : Bytes) → IsPlain xs → IsPlain ys → IsPlain (xs ++ ys)
IsPlain-append xs ys h k = omega (arith, line_feeds-append xs ys, h, k)

IsPlain-cons : (b : ℕ) (bs : Bytes) → (b == 10) ≡ false → IsPlain bs → IsPlain (b ∷ bs)
unfolding line_feeds
IsPlain-cons b bs h k = rw h k

escape_label_value-IsPlain : (value : Bytes) → IsPlain (escape_label_value value)
unfolding escape_label_value line_feeds
escape_label_value-IsPlain [] = refl
escape_label_value-IsPlain (c ∷ cs) =
    let rest = escape_label_value-IsPlain cs in
    elim (Bool-cases (c == 92 || c == 34)) [
      | inl e ↦ rw e (IsPlain-cons c (escape_label_value cs) (ground arith) rest)
      | inr e ↦ elim (Bool-cases (c == 10)) [
        | inl n ↦ rw (e, n) rest
        | inr n ↦ rw (e, n) (IsPlain-cons c (escape_label_value cs) n rest)
      ]
    ]

label_pair-IsPlain : (key text : Bytes) → IsPlain key → IsPlain text → IsPlain (label_pair key text)
unfolding label_pair line_feeds
label_pair-IsPlain key text h k =
    IsPlain-append key (61 ∷ 34 ∷ (text ++ 34 ∷ [])) h (IsPlain-append text (34 ∷ []) k refl)

separator-IsPlain : (first : Bool) → IsPlain (separator first)
unfolding line_feeds
separator-IsPlain true = refl
separator-IsPlain false = refl

abbrev pub HavePlainKeys : MetricLabels → Type 0
HavePlainKeys labels = All (λ (l : Bytes × Bytes). IsPlain l.0) labels

label_pairs-IsPlain :
    (first : Bool) (labels : MetricLabels) (key extra : Bytes)
    → HavePlainKeys labels
    → IsPlain key
    → IsPlain extra
    → IsPlain (label_pairs first labels key extra)
unfolding label_pairs line_feeds
label_pairs-IsPlain first [] key extra h k e =
    if-holds IsPlain (is_empty key) [] (separator first ++ label_pair key extra) refl (
      IsPlain-append (separator first) (label_pair key extra) (separator-IsPlain first)
        (label_pair-IsPlain key extra k e))
label_pairs-IsPlain first ((n, v) ∷ labels) key extra h k e =
    let pair = label_pair n (escape_label_value v) in
    IsPlain-append (separator first ++ pair) (label_pairs false labels key extra)
      (IsPlain-append (separator first) pair (separator-IsPlain first)
        (label_pair-IsPlain n (escape_label_value v) h.0 (escape_label_value-IsPlain v)))
      (label_pairs-IsPlain false labels key extra h.1 k e)

pub label_text-IsPlain :
    (labels : MetricLabels) (key extra : Bytes)
    → HavePlainKeys labels
    → IsPlain key
    → IsPlain extra
    → IsPlain (label_text labels key extra)
unfolding label_text line_feeds
label_text-IsPlain labels key extra h k e =
    if-holds IsPlain (is_empty labels && is_empty key) []
      (123 ∷ label_pairs true labels key extra ++ 125 ∷ []) refl
      (IsPlain-append (123 ∷ label_pairs true labels key extra) (125 ∷ [])
        (IsPlain-cons 123 (label_pairs true labels key extra) refl
          (label_pairs-IsPlain true labels key extra h k e))
        refl)

decimal-IsPlain : (fuel n : ℕ) (acc : Bytes) → IsPlain acc → IsPlain (decimal fuel n acc)
unfolding decimal
decimal-IsPlain zero n acc h = h
decimal-IsPlain (suc fuel) n acc h =
    let now = IsPlain-cons (48 + n % 10) acc (ground arith) h in
    if-holds IsPlain (ltb n 10) ((48 + n % 10) ∷ acc) (decimal fuel (n / 10) ((48 + n % 10) ∷ acc))
      now (decimal-IsPlain fuel (n / 10) ((48 + n % 10) ∷ acc) now)

pub to_string-IsPlain : (n : ℕ) → IsPlain (to_string n)
unfolding to_string line_feeds
to_string-IsPlain n = decimal-IsPlain 20 n [] refl

-- A stream does not print a line feed within a number.
abbrev pub PrintsPlain : Streams → Type 0
PrintsPlain io = (precision d : ℕ) → IsPlain (io.print_at precision d)

shortest-IsPlain :
    (io : Streams) (left precision d : ℕ) → PrintsPlain io → IsPlain (shortest io left precision d)
unfolding shortest
shortest-IsPlain io zero precision d h = h 17 d
shortest-IsPlain io (suc left) precision d h =
    if-holds IsPlain (double_eq (io.read_double (io.print_at precision d)) d) _ _ (h precision d)
      (shortest-IsPlain io left (precision + 1) d h)

whole_text-IsPlain :
    (io : Streams) (d : ℕ) (o : Option ℕ) → PrintsPlain io → IsPlain (whole_text io d o)
unfolding line_feeds
whole_text-IsPlain io d none h = shortest-IsPlain io 12 6 d h
whole_text-IsPlain io d (some n) h =
    if-holds IsPlain (is_negative d && not (n == 0)) (45 ∷ to_string n) (to_string n)
      (IsPlain-cons 45 (to_string n) refl (to_string-IsPlain n)) (to_string-IsPlain n)

pub number-IsPlain : (io : Streams) (d : ℕ) → PrintsPlain io → IsPlain (number io d)
unfolding number line_feeds
number-IsPlain io d h =
    if-holds IsPlain (is_inf d) _ _
      (if-holds IsPlain (is_negative d) (45 ∷ 73 ∷ 110 ∷ 102 ∷ []) (43 ∷ 73 ∷ 110 ∷ 102 ∷ []) refl
        refl)
      (if-holds IsPlain (is_nan d) (78 ∷ 97 ∷ 78 ∷ []) _ refl
        (whole_text-IsPlain io d (whole_below d) h))

pub sample-line :
    (name labels value : Bytes)
    → IsPlain name
    → IsPlain labels
    → IsPlain value
    → line_feeds (sample name labels value) ≡ 1
unfolding sample line_feeds
sample-line name labels value n l v = omega (
  arith,
  line_feeds-append (name ++ labels) (32 ∷ (value ++ 10 ∷ [])),
  line_feeds-append name labels,
  line_feeds-append value (10 ∷ []),
  n,
  l,
  v,
)
