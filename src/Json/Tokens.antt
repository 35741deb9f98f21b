-- ===== src/Json/Tokens.antt =====
-- White space and brackets in the parser of src/io/Json.cpp.
use pp_cpp_common.Common.{
  Bool-cases, Bytes, [], ap, append_assoc, arith, false, inl, inr, refl, some, suc, true, zero, ℕ,
  ◌*◌, ◌++◌, ◌==◌, ◌∙◌, ◌∷◌, ◌≡◌,
}
use pp_cpp_common.Common.Int.{negsuc, pos, ℤ}
use pp_cpp_common.Json.Encoder.{gap, pad, spaces}
use pp_cpp_common.Json.NumberText.{starts}
use pp_cpp_common.Json.Parser.{after_item, consume, expect, try_consume}
use pp_cpp_common.Json.Strings.{is_json_ws, skip_ws}
use pp_cpp_common.Wire.Reader.{Reader, ◌>>=◌}

pub skip_ws_plain : (bs : Bytes) → starts is_json_ws bs ≡ false → skip_ws bs ≡ bs
skip_ws_plain [] h = refl
skip_ws_plain (c ∷ bs) h = rw h refl

pub skip_ws_idem : (bs : Bytes) → skip_ws (skip_ws bs) ≡ skip_ws bs
skip_ws_idem [] = refl
skip_ws_idem (c ∷ bs) = elim (Bool-cases (is_json_ws c)) [
  | inl e ↦ rw e (skip_ws_idem bs)
  | inr e ↦ rw e (rw e refl)
]

skip_ws-spaces : (n : ℕ) (bs : Bytes) → skip_ws (spaces n ++ bs) ≡ skip_ws bs
unfolding is_json_ws
skip_ws-spaces zero bs = refl
skip_ws-spaces (suc n) bs = skip_ws-spaces n bs

pub skip_ws-pad :
    (indent : ℤ) (depth : ℕ) (bs : Bytes) → skip_ws (pad indent depth ++ bs) ≡ skip_ws bs
unfolding pad is_json_ws
skip_ws-pad (pos n) depth bs = skip_ws-spaces (n * depth) bs
skip_ws-pad (negsuc n) depth bs = refl

pub skip_ws-gap : (indent : ℤ) (bs : Bytes) → skip_ws (gap indent ++ bs) ≡ skip_ws bs
unfolding is_json_ws
skip_ws-gap (pos n) bs = refl
skip_ws-gap (negsuc n) bs = refl

pub try_consume_yes :
    (c : ℕ) (bs : Bytes) → is_json_ws c ≡ false → try_consume c (c ∷ bs) ≡ some (true, bs)
unfolding try_consume
try_consume_yes c bs h = rw h (ground arith)

pub try_consume_no :
    (c b : ℕ) (bs : Bytes)
    → is_json_ws b ≡ false
    → (b == c) ≡ false
    → try_consume c (b ∷ bs) ≡ some (false, b ∷ bs)
unfolding try_consume
try_consume_no c b bs h n = rw h (rw n refl)

pub expect_yes : (c : ℕ) (bs : Bytes) → is_json_ws c ≡ false → expect c (c ∷ bs) ≡ some (tt, bs)
unfolding expect
expect_yes c bs h = rw (try_consume_yes c bs h, ◌>>=◌) refl

-- The parsers that skip white space at first.
pub try_consume_skip :
    (c : ℕ) (bs cs : Bytes) → skip_ws bs ≡ skip_ws cs → try_consume c bs ≡ try_consume c cs
unfolding try_consume
try_consume_skip c bs cs h = ap (consume c) h

module _ {ℓ} {A : Type ℓ} (close : ℕ) (done again : Reader A) where
  pub after_item_close :
      (indent : ℤ) (depth : ℕ) (rest : Bytes)
      → is_json_ws close ≡ false
      → after_item close done again ((pad indent depth ++ close ∷ []) ++ rest) ≡ done rest
  unfolding after_item
  after_item_close indent depth rest h =
      let seen =
        ap skip_ws (append_assoc (pad indent depth) (close ∷ []) rest)
        ∙ skip_ws-pad indent depth (close ∷ rest)
        ∙ skip_ws_plain (close ∷ rest) h in
      rw (seen, try_consume_yes close rest h, ◌>>=◌) refl

  pub after_item_comma :
      (rest : Bytes) → (44 == close) ≡ false → after_item close done again (44 ∷ rest) ≡ again rest
  unfolding after_item is_json_ws
  after_item_comma rest h =
      rw (try_consume_no close 44 rest refl h, ◌>>=◌) (rw (expect_yes 44 rest refl, ◌>>=◌) refl)
