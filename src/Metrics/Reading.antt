-- ===== src/Metrics/Reading.antt =====
-- The labels can be told from the text of src/MetricsRegistry.cpp.
use mathlib.Core.Path.{ap₂}
use pp_cpp_common.Common.{
  All, Bool-cases, Bytes, List, Option, [], ap, append_assoc, arith, false, if◌then◌else◌, inl, inr,
  none, refl, some, sym, ℕ, ◌++◌, ◌==◌, ◌||◌, ◌∙◌, ◌∷◌, ◌≡◌,
}
use pp_cpp_common.Metrics.Labels.{escape_label_value, label_pair, label_pairs, label_text}

-- A label value as the text format describes it, up to its closing quote.
abbrev put : ℕ → Option (Bytes × Bytes) → Option (Bytes × Bytes)
put c none = none
put c (some (v, rest)) = some (c ∷ v, rest)

unfoldable pub read_label_value : Bytes → Option (Bytes × Bytes)
read_label_value [] = none
read_label_value (c ∷ []) = if c == 34 then some ([], []) else none
read_label_value (c ∷ d ∷ cs) =
    let escaped = read_label_value cs in
    let plain = read_label_value (d ∷ cs) in
    if c == 34
    then some ([], d ∷ cs)
    else if c == 92
    then put (if d == 110 then 10 else d) escaped
    else put c plain

plain_value :
    (c : ℕ) (cs : Bytes)
    → (c == 34) ≡ false
    → (c == 92) ≡ false
    → read_label_value (c ∷ cs) ≡ put c (read_label_value cs)
unfolding read_label_value
plain_value c [] h k = rw h refl
plain_value c (d ∷ cs) h k = rw (h, k) refl

escaped_value :
    (d : ℕ) (cs : Bytes)
    → read_label_value (92 ∷ d ∷ cs) ≡ put (if d == 110 then 10 else d) (read_label_value cs)
unfolding read_label_value
escaped_value d cs = refl

closed_value : (cs : Bytes) → read_label_value (34 ∷ cs) ≡ some ([], cs)
unfolding read_label_value
closed_value [] = refl
closed_value (c ∷ cs) = refl

read_label_value-escape_label_value :
    (value rest : Bytes)
    → read_label_value (escape_label_value value ++ 34 ∷ rest) ≡ some (value, rest)
unfolding escape_label_value
read_label_value-escape_label_value [] rest = closed_value rest
read_label_value-escape_label_value (c ∷ value) rest =
    let back = read_label_value-escape_label_value value rest in
    elim (Bool-cases (c == 92 || c == 34)) [
      | inl e ↦
          let own : (c == 110) ≡ false = ground arith in
          rw e (escaped_value c (escape_label_value value ++ 34 ∷ rest) ∙ rw (own, back) refl)
      | inr e ↦ elim (Bool-cases (c == 10)) [
        | inl n ↦
            let feed : c ≡ 10 = ground arith in
            rw (e, n)
              (escaped_value 110 (escape_label_value value ++ 34 ∷ rest) ∙ rw (back, feed) refl)
        | inr n ↦
            rw (e, n)
              (plain_value c (escape_label_value value ++ 34 ∷ rest) (ground arith) (ground arith)
                ∙ rw back refl)
      ]
    ]

head_or : ℕ → Bytes → ℕ
head_or c [] = c
head_or c (b ∷ bs) = b

tail : Bytes → Bytes
tail [] = []
tail (b ∷ bs) = bs

-- The key ends at the equals sign.
abbrev HasNo : ℕ → Bytes → Type 0
HasNo c bs = All (λ b. (b == c) ≡ false) bs

head_is : (b c : ℕ) → b ≡ c → (b == c) ≡ false → ⊥
head_is b c e h = absurd (ground arith)

split_unique :
    (c : ℕ) (ks ls r s : Bytes)
    → HasNo c ks
    → HasNo c ls
    → ks ++ c ∷ r ≡ ls ++ c ∷ s
    → (ks ≡ ls) × (r ≡ s)
unfolding head_or tail
split_unique c [] [] r s h k e = (refl, ap tail e)
split_unique c [] (l ∷ ls) r s h k e = absurd (head_is l c (sym (ap (head_or 0) e)) k.0)
split_unique c (x ∷ ks) [] r s h k e = absurd (head_is x c (ap (head_or 0) e) h.0)
split_unique c (x ∷ ks) (l ∷ ls) r s h k e =
    let (same, rest) = split_unique c ks ls r s h.1 k.1 (ap tail e) in
    (ap₂ (λ b bs. b ∷ bs) (ap (head_or 0) e) same, rest)

value_or : Bytes → Option (Bytes × Bytes) → Bytes
value_or d none = d
value_or d (some (v, rest)) = v

rest_or : Bytes → Option (Bytes × Bytes) → Bytes
rest_or d none = d
rest_or d (some (v, rest)) = rest

value_unique :
    (v w r s : Bytes)
    → escape_label_value v ++ 34 ∷ r ≡ escape_label_value w ++ 34 ∷ s
    → (v ≡ w) × (r ≡ s)
unfolding value_or rest_or
value_unique v w r s e =
    let same =
      sym (read_label_value-escape_label_value v r)
      ∙ ap read_label_value e
      ∙ read_label_value-escape_label_value w s in
    (ap (value_or []) same, ap (rest_or []) same)

label_pair-append : (k t r : Bytes) → label_pair k t ++ r ≡ k ++ 61 ∷ 34 ∷ (t ++ 34 ∷ r)
unfolding label_pair
label_pair-append k t r =
    append_assoc k (61 ∷ 34 ∷ (t ++ 34 ∷ [])) r
    ∙ ap (λ bs. k ++ 61 ∷ 34 ∷ bs) (append_assoc t (34 ∷ []) r)

-- A pair, by what stands behind it.
pair_unique :
    (k v l w r s : Bytes)
    → HasNo 61 k
    → HasNo 61 l
    → label_pair k (escape_label_value v) ++ r ≡ label_pair l (escape_label_value w) ++ s
    → (k ≡ l) × (v ≡ w) × (r ≡ s)
unfolding tail
pair_unique k v l w r s h g e =
    let values = λ (t : Bytes) (u : Bytes). 34 ∷ (escape_label_value t ++ 34 ∷ u) in
    let split = split_unique 61 k l (values v r) (values w s) h g (
      sym (label_pair-append k (escape_label_value v) r)
      ∙ e
      ∙ label_pair-append l (escape_label_value w) s) in
    let rest = value_unique v w r s (ap tail split.1) in (split.0, rest.0, rest.1)

abbrev pub HaveNames : List (Bytes × Bytes) → Type 0
HaveNames labels = All (λ (l : Bytes × Bytes). HasNo 61 l.0) labels

cons_unique :
    (k v l w : Bytes) (ls ms : List (Bytes × Bytes))
    → k ≡ l
    → v ≡ w
    → ls ≡ ms
    → (k, v) ∷ ls ≡ (l, w) ∷ ms
cons_unique k v l w ls ms a b c = rw (a, b, c) refl

-- What stands behind a pair in the text.
behind_pair :
    (k v : Bytes) (ls : List (Bytes × Bytes)) (r : Bytes)
    → (label_pair k (escape_label_value v) ++ label_pairs false ls [] []) ++ 125 ∷ r
      ≡ label_pair k (escape_label_value v) ++ (label_pairs false ls [] [] ++ 125 ∷ r)
behind_pair k v ls r =
    append_assoc (label_pair k (escape_label_value v)) (label_pairs false ls [] []) (125 ∷ r)

pairs_unique :
    (ls ms : List (Bytes × Bytes)) (r s : Bytes)
    → HaveNames ls
    → HaveNames ms
    → label_pairs false ls [] [] ++ 125 ∷ r ≡ label_pairs false ms [] [] ++ 125 ∷ s
    → (ls ≡ ms) × (r ≡ s)
unfolding label_pairs head_or tail
pairs_unique [] [] r s h g e = (refl, ap tail e)
pairs_unique [] ((l, w) ∷ ms) r s h g e = absurd (omega (arith, ap (head_or 0) e))
pairs_unique ((k, v) ∷ ls) [] r s h g e = absurd (omega (arith, ap (head_or 0) e))
pairs_unique ((k, v) ∷ ls) ((l, w) ∷ ms) r s h g e =
    let (keys, values, more) =
      pair_unique k v l w (label_pairs false ls [] [] ++ 125 ∷ r)
        (label_pairs false ms [] [] ++ 125 ∷ s) h.0 g.0
        (sym (behind_pair k v ls r) ∙ ap tail e ∙ behind_pair l w ms s) in
    let (same, rest) = pairs_unique ls ms r s h.1 g.1 more in
    (cons_unique k v l w ls ms keys values same, rest)

-- Two texts that LabelText gives without an extra label, each followed by a space, that are equal
-- have the same labels and the same rest, whatever bytes the values hold, when no key holds an
-- equals sign.
pub label_text-injective :
    (ls ms : List (Bytes × Bytes)) (r s : Bytes)
    → HaveNames ls
    → HaveNames ms
    → label_text ls [] [] ++ 32 ∷ r ≡ label_text ms [] [] ++ 32 ∷ s
    → (ls ≡ ms) × (r ≡ s)
unfolding label_text label_pairs head_or tail
label_text-injective [] [] r s h g e = (refl, ap tail e)
label_text-injective [] ((l, w) ∷ ms) r s h g e = absurd (omega (arith, ap (head_or 0) e))
label_text-injective ((k, v) ∷ ls) [] r s h g e = absurd (omega (arith, ap (head_or 0) e))
label_text-injective ((k, v) ∷ ls) ((l, w) ∷ ms) r s h g e =
    let text = λ (n : Bytes) (t : Bytes) (ps : List (Bytes × Bytes)) (u : Bytes).
      append_assoc (label_pair n (escape_label_value t) ++ label_pairs false ps [] []) (125 ∷ [])
        (32 ∷ u)
      ∙ behind_pair n t ps (32 ∷ u) in
    let (keys, values, more) =
      pair_unique k v l w (label_pairs false ls [] [] ++ 125 ∷ 32 ∷ r)
        (label_pairs false ms [] [] ++ 125 ∷ 32 ∷ s) h.0 g.0
        (sym (text k v ls r) ∙ ap tail e ∙ text l w ms s) in
    let (same, rest) = pairs_unique ls ms (32 ∷ r) (32 ∷ s) h.1 g.1 more in
    (cons_unique k v l w ls ms keys values same, ap tail rest)
