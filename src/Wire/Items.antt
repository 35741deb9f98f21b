-- ===== src/Wire/Items.antt =====
-- The loops of the container overloads: items one after another, and items that have to be new.
use mathlib.Core.Option
use pp_cpp_common.Common.{
  All, All-map, All-middle, Bool, Bool-cases, Bytes, List, Option, Option-cases, [], append-nil,
  append_assoc, arith, false, if◌then◌else◌, inl, inr, length, none, refl, some, suc, true, zero, ℕ,
  ◌++◌, ◌∙◌, ◌∷◌, ◌≡◌, ◌⊎◌,
}
use pp_cpp_common.Wire.Reader.{>>=-eq-some, Reader, pure, ◌>>=◌}

module _ {ℓ} {A : Type ℓ} where
  unfoldable pub write_items : (A → Bytes) → List A → Bytes
  write_items writer [] = []
  write_items writer (x ∷ xs) = writer x ++ write_items writer xs

  unfoldable pub read_items : Reader A → ℕ → Reader (List A)
  read_items reader zero = pure []
  read_items reader (suc n) = do x ← reader; xs ← read_items reader n; pure (x ∷ xs)

  -- `emplace` and `insert` of std::map and std::set, on the items in order: `none` is a duplicate.
  unfoldable pub insert_unique : (A → A → Bool) → A → List A → Option (List A)
  insert_unique lt x [] = some (x ∷ [])
  insert_unique lt x (y ∷ ys) =
      if lt x y
      then some (x ∷ y ∷ ys)
      else if lt y x
      then Option.map (λ zs. y ∷ zs) (insert_unique lt x ys)
      else none

  abbrev pub insert_reader : (A → A → Bool) → A → List A → Reader (List A)
  insert_reader lt x acc bs = Option.map (λ zs. (zs, bs)) (insert_unique lt x acc)

  unfoldable pub read_unique : (A → A → Bool) → Reader A → ℕ → List A → Reader (List A)
  read_unique lt reader zero acc = pure acc
  read_unique lt reader (suc n) acc = do
    x ← reader
    acc' ← insert_reader lt x acc
    read_unique lt reader n acc'

  -- Each item lies below all that follow it.
  abbrev pub IsAscending : (A → A → Bool) → List A → Type 0
  IsAscending lt [] = Unit
  IsAscending lt (x ∷ xs) = All (λ y. lt x y ≡ true) xs × IsAscending lt xs

module _ {ℓ} {A : Type ℓ} (reader : Reader A) (writer : A → Bytes) where
  -- `reader` takes back what `writer` put.
  abbrev pub Inverts : A → Type ℓ
  Inverts x = (rest : Bytes) → reader (writer x ++ rest) ≡ some (x, rest)

module _ {ℓ} {A : Type ℓ} (reader : Reader A) (writer : A → Bytes) where
  pub read_items-write_items :
      (xs : List A) (rest : Bytes)
      → All (Inverts reader writer) xs
      → read_items reader (length xs) (write_items writer xs ++ rest) ≡ some (xs, rest)
  unfolding read_items write_items
  read_items-write_items [] rest h = refl
  read_items-write_items (x ∷ xs) rest h =
      rw (append_assoc, h.0 (write_items writer xs ++ rest), ◌>>=◌)
        (rw (read_items-write_items xs rest h.1, ◌>>=◌))

module _ {ℓ} {A : Type ℓ} (lt : A → A → Bool) where
  insert_reader-eq-some :
      (x : A) (acc : List A) (bs : Bytes) {acc' : List A} {bs' : Bytes}
      → insert_reader lt x acc bs ≡ some (acc', bs')
      → insert_unique lt x acc ≡ some acc'
  insert_reader-eq-some x acc bs e = ground arith

  pub insert_unique-last :
      (x : A) (xs : List A)
      → ((y z : A) → lt y z ≡ true → lt z y ≡ false)
      → All (λ y. lt y x ≡ true) xs
      → insert_unique lt x xs ≡ some (xs ++ x ∷ [])
  unfolding insert_unique
  insert_unique-last x [] asym h = refl
  insert_unique-last x (y ∷ ys) asym h =
      rw (asym y x h.0, h.0) (rw (insert_unique-last x ys asym h.1))

  -- A successful insertion stands in front, or goes on behind a smaller item.
  insert_unique_cases :
      (x y : A) (ys zs : List A)
      → insert_unique lt x (y ∷ ys) ≡ some zs
      → ((lt x y ≡ true) × (zs ≡ x ∷ y ∷ ys))
        ⊎ ((lt y x ≡ true) × ((ts : List A) × (insert_unique lt x ys ≡ some ts) × (zs ≡ y ∷ ts)))
  unfolding insert_unique
  insert_unique_cases x y ys zs e = elim (Bool-cases (lt x y)) [
    | inl below ↦ inl (below, ground arith)
    | inr not_below ↦ elim (Bool-cases (lt y x)) [
      | inl above ↦ elim (Option-cases (insert_unique lt x ys)) [
        | inl e' ↦ ground arith
        | inr (ts, e') ↦ inr (above, (ts, e', ground arith))
      ]
      | inr not_above ↦ ground arith
    ]
  ]

  IsAscending-middle :
      (xs : List A) (x : A) (ys : List A)
      → IsAscending lt (xs ++ x ∷ ys)
      → All (λ y. lt y x ≡ true) xs
  IsAscending-middle [] x ys h = tt
  IsAscending-middle (y ∷ xs) x ys h =
      (All-middle (λ z. lt y z ≡ true) xs x ys h.0, IsAscending-middle xs x ys h.1)

  All-insert_unique {κ} :
      (P : A → Type κ) (x : A) (xs zs : List A)
      → insert_unique lt x xs ≡ some zs
      → P x
      → All P xs
      → All P zs
  unfolding insert_unique
  All-insert_unique P x [] zs e p h = let e' : zs ≡ x ∷ [] = cc in rw e' (p, tt)
  All-insert_unique P x (y ∷ ys) zs e p h = elim (insert_unique_cases x y ys zs e) [
    | inl (_, front) ↦ rw front (p, h)
    | inr (_, (ts, e', behind)) ↦ rw behind (h.0, All-insert_unique P x ys ts e' p h.1)
  ]

  insert_unique-IsAscending :
      (x : A) (xs zs : List A)
      → ((a b c : A) → lt a b ≡ true → lt b c ≡ true → lt a c ≡ true)
      → insert_unique lt x xs ≡ some zs
      → IsAscending lt xs
      → IsAscending lt zs
  unfolding insert_unique
  insert_unique-IsAscending x [] zs trans e h = let e' : zs ≡ x ∷ [] = cc in rw e' (tt, tt)
  insert_unique-IsAscending x (y ∷ ys) zs trans e h = elim (insert_unique_cases x y ys zs e) [
    | inl (below, front) ↦ rw front (
      (below, All-map (λ z. lt y z ≡ true) (λ z. lt x z ≡ true) ys (λ z. trans x y z below) h.0),
      h,
    )
    | inr (above, (ts, e', behind)) ↦ rw behind (
      All-insert_unique (λ z. lt y z ≡ true) x ys ts e' above h.0,
      insert_unique-IsAscending x ys ts trans e' h.1,
    )
  ]

  module _ (reader : Reader A) where
    pub read_unique-write_items :
        (writer : A → Bytes) (acc xs : List A) (rest : Bytes)
        → ((y z : A) → lt y z ≡ true → lt z y ≡ false)
        → All (Inverts reader writer) xs
        → IsAscending lt (acc ++ xs)
        → read_unique lt reader (length xs) acc (write_items writer xs ++ rest)
          ≡ some (acc ++ xs, rest)
    unfolding read_unique write_items
    read_unique-write_items writer acc [] rest asym h s = rw append-nil
    read_unique-write_items writer acc (x ∷ xs) rest asym h s =
        let last = insert_unique-last x acc asym (IsAscending-middle acc x xs s) in
        let s' : IsAscending lt ((acc ++ x ∷ []) ++ xs) = rw append_assoc s in
        rw (append_assoc, h.0 (write_items writer xs ++ rest), ◌>>=◌)
          (rw (last, ◌>>=◌)
            (read_unique-write_items writer (acc ++ x ∷ []) xs rest asym h.1 s' ∙ rw append_assoc))

    -- The items of a map or set that is read, by a transitive order and into an ascending
    -- container, are in ascending order.
    pub read_unique-IsAscending :
        (n : ℕ) (acc : List A) (bs : Bytes) (zs : List A) (rest : Bytes)
        → ((a b c : A) → lt a b ≡ true → lt b c ≡ true → lt a c ≡ true)
        → IsAscending lt acc
        → read_unique lt reader n acc bs ≡ some (zs, rest)
        → IsAscending lt zs
    unfolding read_unique
    read_unique-IsAscending zero acc bs zs rest trans h e = let e' : zs ≡ acc = cc in rw e' h
    read_unique-IsAscending (suc n) acc bs zs rest trans h e =
        let (x, bs₁, e₁, e₂) = >>=-eq-some reader _ bs e in
        let (acc', bs₂, e₃, e₄) = >>=-eq-some (insert_reader lt x acc) _ bs₁ e₂ in
        read_unique-IsAscending n acc' bs₂ zs rest trans
          (insert_unique-IsAscending x acc acc' trans (insert_reader-eq-some x acc bs₁ e₃) h) e₄
