-- ===== src/Metrics/Registry.antt =====
-- MetricsRegistry::Find, Counter, Gauge and Histogram of src/MetricsRegistry.cpp. What they return
-- refers to a series by the name of its family and its place in it.
use pp_cpp_common.Common.{
  Bool, Bytes, List, Option, [], bytes_eq, false, if◌then◌else◌, length, ltb, none, some, suc, true,
  zero, ℕ, ◌%◌, ◌&&◌, ◌++◌, ◌+◌, ◌^◌, ◌∷◌,
}
use pp_cpp_common.Metrics.Histogram.{MetricHistogram, new_histogram, observe}
use pp_cpp_common.Wire.Types.{bytes_lt}

pub data MetricType : Type 0 where
  counter gauge histogram : MetricType

abbrev pub MetricLabels : Type 0
MetricLabels = List (Bytes × Bytes)

pub record Series : Type 0 where
  pub labels : MetricLabels
  pub counter_value : ℕ
  pub gauge_value : ℕ
  pub observed : MetricHistogram

pub record Family : Type 0 where
  pub kind : MetricType
  pub help : Bytes
  pub series : List Series

-- The families in the order of their names.
abbrev pub Families : Type 0
Families = List (Bytes × Family)

pub record Reference : Type 0 where
  pub name : Bytes
  pub place : ℕ

unfoldable pub labels_eq : MetricLabels → MetricLabels → Bool
labels_eq [] [] = true
labels_eq [] (l ∷ ls) = false
labels_eq (k ∷ ks) [] = false
labels_eq ((k, v) ∷ ks) ((l, w) ∷ ls) = bytes_eq k l && bytes_eq v w && labels_eq ks ls

-- The loop of Find; the number of series where none has the labels.
unfoldable pub place_of : MetricLabels → List Series → ℕ
place_of labels [] = 0
place_of labels (s ∷ ss) = if labels_eq s.labels labels then 0 else suc (place_of labels ss)

unfoldable pub family_of : Bytes → Families → Option Family
family_of name [] = none
family_of name ((n, f) ∷ fs) = if bytes_eq n name then some f else family_of name fs

-- Puts a family where its name belongs, or in the place of the one that has the name.
unfoldable pub put_family : Bytes → Family → Families → Families
put_family name family [] = (name, family) ∷ []
put_family name family ((n, f) ∷ fs) =
    if bytes_eq n name
    then (name, family) ∷ fs
    else if bytes_lt name n
    then (name, family) ∷ (n, f) ∷ fs
    else (n, f) ∷ put_family name family fs

unfoldable pub new_series : MetricLabels → List ℕ → Series
new_series labels bounds = record {
  labels = labels;
  counter_value = 0;
  gauge_value = 0;
  observed = new_histogram bounds;
}

-- try_emplace of the family.
abbrev pub or_new : Option Family → MetricType → Bytes → Family
or_new none kind help = record { kind = kind; help = help; series = [] }
or_new (some f) kind help = f

unfoldable pub with_series : MetricLabels → List ℕ → Family → Family
with_series labels bounds f =
    if ltb (place_of labels f.series) (length f.series)
    then f
    else record f { series = f.series ++ new_series labels bounds ∷ [] }

-- An absent list of bounds is empty.
unfoldable pub find :
    Bytes → Bytes → MetricType → MetricLabels → List ℕ → Families → Reference × Families
find name help kind labels bounds fs =
    let f = or_new (family_of name fs) kind help in
    (
      record { name = name; place = place_of labels f.series },
      put_family name (with_series labels bounds f) fs,
    )

-- What Counter, Gauge and Histogram return is updated in its place.
abbrev pub at_place : ℕ → (Series → Series) → List Series → List Series
at_place i f [] = []
at_place zero f (s ∷ ss) = f s ∷ ss
at_place (suc i) f (s ∷ ss) = s ∷ at_place i f ss

unfoldable pub update_family : Reference → (Series → Series) → Families → Families
update_family r f [] = []
update_family r f ((n, g) ∷ gs) =
    if bytes_eq n r.name
    then (n, record g { series = at_place r.place f g.series }) ∷ gs
    else (n, g) ∷ update_family r f gs

-- Counter, Gauge and Histogram, and the updates of what they returned.
pub data Call : Type 0 where
  finds : Bytes → Bytes → MetricType → MetricLabels → List ℕ → Call
  increments mirrors sets adds observes : Reference → ℕ → Call

abbrev pub increment : ℕ → Series → Series
increment n s = record s { counter_value = (s.counter_value + n) % 2 ^ 64 }

abbrev pub mirror : ℕ → Series → Series
mirror total s = record s { counter_value = total }

abbrev pub set_gauge : ℕ → Series → Series
set_gauge value s = record s { gauge_value = value }

abbrev pub add_gauge : (ℕ → ℕ → ℕ) → ℕ → Series → Series
add_gauge plus delta s = record s { gauge_value = plus s.gauge_value delta }

abbrev pub observe_series : (ℕ → ℕ → ℕ) → ℕ → Series → Series
observe_series plus value s = record s { observed = observe plus value s.observed }

unfoldable pub call : (ℕ → ℕ → ℕ) → Call → Families → Families
call plus (finds name help kind labels bounds) fs = (find name help kind labels bounds fs).1
call plus (increments r n) fs = update_family r (increment n) fs
call plus (mirrors r total) fs = update_family r (mirror total) fs
call plus (sets r value) fs = update_family r (set_gauge value) fs
call plus (adds r delta) fs = update_family r (add_gauge plus delta) fs
call plus (observes r value) fs = update_family r (observe_series plus value) fs

abbrev pub calls : (ℕ → ℕ → ℕ) → List Call → Families → Families
calls plus [] fs = fs
calls plus (c ∷ cs) fs = calls plus cs (call plus c fs)
