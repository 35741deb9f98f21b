-- ===== src/Json/DocumentText.antt =====
-- Whatever an object holds, what `objectToJsonString` gives is a document.
use pp_cpp_common.Common.{
  Bool, Bytes, [], ap, if◌then◌else◌, leb, refl, some, subst, ◌&&◌, ◌++◌, ◌∙◌, ◌∷◌, ◌≡◌,
}
use pp_cpp_common.Common.Int.{negsuc, ℤ}
use pp_cpp_common.Json.Document.{
  object_from_json_string, object_to_json_string, or_error_text, root_object,
}
use pp_cpp_common.Json.Encodable.{FitsIndent, has_text, is_ok-value_to_json_string, levels}
use pp_cpp_common.Json.Encoder.{
  append_json_value, field_name, indented, max_nesting_depth, overflows, pad, value_to_json_string,
}
use pp_cpp_common.Json.NumberValues.{PrintsDoubles}
use pp_cpp_common.Json.Numbers.{Doubles}
use pp_cpp_common.Json.Parser.{value_from_json_string}
use pp_cpp_common.Json.Reread.{FitsJson, reread, reread_fields}
use pp_cpp_common.Json.RoundTrip.{sanitize}
use pp_cpp_common.Json.Strings.{append_escaped_json_string, escape, escape_ascii}
use pp_cpp_common.Json.ValueRoundTrip.{value_from_json_string-value_to_json_string}
use pp_cpp_common.Results.{Roe, ascii, err, is_ok, ok}
use pp_cpp_common.Value.{Fields, contains, field, no_fields, object_ptr, string_value}

-- The object that says what went wrong.
abbrev pub error_object : Bytes → Fields
error_object message = field (ascii "error") (string_value message) no_fields

abbrev reread_or_error : Roe Bytes → Fields → Fields
reread_or_error (ok text) fs = fs
reread_or_error (err e) fs = error_object (sanitize 0 e.message)

-- The message of an error.
abbrev pub message_of : Roe Bytes → Bytes
message_of (ok text) = []
message_of (err e) = e.message

error_text :
    (io : Doubles) (message : Bytes)
    → value_to_json_string io (negsuc 0) (object_ptr (error_object message))
      ≡ ok (ascii "{\"error\":" ++ (append_escaped_json_string message ++ (125 ∷ [])))
unfolding value_to_json_string append_json_value indented overflows field_name pad
    append_escaped_json_string escape escape_ascii
error_text io message = refl

module _ (io : Doubles) (p : PrintsDoubles io) (indent : ℤ) where
  error_FitsJson : (message : Bytes) → FitsJson io p (object_ptr (error_object message))
  unfolding contains
  error_FitsJson message = (refl, tt, tt)

  document_back :
      (r : Roe Bytes) (fs : Fields)
      → ((text : Bytes) → r ≡ ok text → value_from_json_string io text ≡ some (object_ptr fs))
      → root_object (value_from_json_string io (or_error_text r)) ≡ some (reread_or_error r fs)
  unfolding reread escape escape_ascii sanitize
  document_back (ok text) fs h = ap root_object (h text refl)
  document_back (err e) fs h = ap root_object (
      value_from_json_string-value_to_json_string io p (negsuc 0)
        (object_ptr (error_object e.message)) _ (error_FitsJson e.message)
        (error_text io e.message))

  -- What was written, by whether the encoder succeeded.
  outcome :
      (r : Roe Bytes) (fs : Fields) (b : Bool)
      → is_ok r ≡ b
      → reread_or_error r fs ≡ (if b then fs else error_object (sanitize 0 (message_of r)))
  outcome (ok text) fs b h =
      subst (λ c. fs ≡ (if c then fs else error_object (sanitize 0 []))) h refl
  outcome (err e) fs b h =
      subst
        (λ c.
          error_object (sanitize 0 e.message)
          ≡ (if c then fs else error_object (sanitize 0 e.message)))
        h refl

  -- objectFromJsonString accepts whatever objectToJsonString gives, with an indent that 128 times
  -- fits an int: where the object can be written (unsigned numbers within int64_t, finite doubles,
  -- no null pointers, at most 128 levels) it gives the object with unsigned numbers as signed ones,
  -- strings with U+FFFD for what is not UTF-8, and doubles as themselves or as the integers that
  -- are printed for them; elsewhere an object whose only field, error, has the message of the
  -- encoder, with U+FFFD for what is not UTF-8; the object holds signed numbers within int64_t,
  -- doubles that are not subnormal, and no two keys in an object that are written alike, and the C
  -- library prints and reads doubles as described.
  pub object_from_json_string-object_to_json_string :
      (fs : Fields)
      → FitsIndent indent
      → FitsJson io p (object_ptr fs)
      → object_from_json_string io (object_to_json_string io indent fs)
        ≡ some (
            if has_text (object_ptr fs) && leb (levels (object_ptr fs)) max_nesting_depth
            then reread_fields io p fs
            else error_object
                (sanitize 0 (message_of (value_to_json_string io indent (object_ptr fs)))))
  unfolding object_from_json_string object_to_json_string reread
  object_from_json_string-object_to_json_string fs fits h =
      document_back (value_to_json_string io indent (object_ptr fs)) (reread_fields io p fs)
        (λ text e. value_from_json_string-value_to_json_string io p indent (object_ptr fs) text h e)
      ∙ ap some (
          outcome (value_to_json_string io indent (object_ptr fs)) (reread_fields io p fs) _
            (is_ok-value_to_json_string io indent fits (object_ptr fs)))
