-- ===== src/Json/ValueTests.antt =====
-- The theorems on JSON values at concrete documents, with a C library that prints a double as its bit
-- pattern behind a point.
use pp_cpp_common.Common.{
  Bytes, [], ap, append-nil, arith, bytes_eq, false, if◌then◌else◌, leb, length, refl, some, suc,
  sym, true, zero, ℕ, ◌&&◌, ◌<◌, ◌^◌, ◌∙◌, ◌∷◌, ◌≡◌,
}
use pp_cpp_common.Common.Int.{negsuc, pos, ℤ}
use pp_cpp_common.Json.Document.{object_from_json_string, object_to_json_string}
use pp_cpp_common.Json.DocumentText.{
  error_object, message_of, object_from_json_string-object_to_json_string,
}
use pp_cpp_common.Json.Encodable.{
  has_text, is_ok-value_to_json_string, levels, value_to_json_string-value_from_json_string,
}
use pp_cpp_common.Json.Encoder.{
  append_json_value, field_name, indented, max_nesting_depth, overflows, pad, value_to_json_string,
}
use pp_cpp_common.Json.NumberText.{IsNumberText, NumberText, is_float, spell}
use pp_cpp_common.Json.NumberValues.{
  PrintsDoubles, is_subnormal, scan-to_string, to_string-SomeDigits,
}
use pp_cpp_common.Json.Numbers.{Doubles, is_finite, signed_to_string}
use pp_cpp_common.Json.Parsed.{IsParsed}
use pp_cpp_common.Json.ParsedDocument.{value_from_json_string-IsParsed}
use pp_cpp_common.Json.Parser.{parse_elements, parse_fields, parse_value, value_from_json_string}
use pp_cpp_common.Json.Reread.{FitsJson, reread, reread_fields}
use pp_cpp_common.Json.RoundTrip.{sanitize}
use pp_cpp_common.Json.Strings.{append_escaped_json_string, escape, escape_ascii, parse_chars}
use pp_cpp_common.Json.Termination.{parse_loops_enough}
use pp_cpp_common.Json.ValueRoundTrip.{value_from_json_string-value_to_json_string}
use pp_cpp_common.Results.{ascii, is_ok, ok}
use pp_cpp_common.Value.{
  Fields, Value, array_ptr, bool_value, contains, double_value, element, field, int64_value,
  no_elements, no_fields, null_value, object_ptr, uint64_value,
}
use pp_cpp_common.Value.Numbers.{decimal, drop_two, scan, to_string}

abbrev plain_digits : Doubles
plain_digits = record {
  print_double = λ d. 48 ∷ 46 ∷ to_string d;
  strtod = λ s. ((scan 10 0 (drop_two s)).0, length s, false);
}

abbrev plain_text : ℕ → NumberText
plain_text d = record {
  negative = false;
  whole = 48 ∷ [];
  fraction = 46 ∷ to_string d;
  exponent = [];
}

plain_spelled : (d : ℕ) → plain_digits.print_double d ≡ spell (plain_text d)
unfolding spell
plain_spelled d = ap (λ bs. 48 ∷ 46 ∷ bs) (sym (append-nil (to_string d)))

plain_grammar : (d : ℕ) → d < 2 ^ 64 → is_finite d ≡ true → IsNumberText (plain_text d)
plain_grammar d h f =
    (((omega arith, omega arith), tt, λ e. refl), (refl, to_string-SomeDigits d h), tt)

plain_read :
    (d : ℕ)
    → d < 2 ^ 64
    → is_finite d ≡ true
    → is_subnormal d ≡ false
    → is_float (plain_text d) ≡ true
    → plain_digits.strtod (plain_digits.print_double d)
      ≡ (d, length (plain_digits.print_double d), false)
plain_read d h f n e =
    ap (λ r. (r.0, length (plain_digits.print_double d), false)) (scan-to_string d h)

abbrev prints_plain : PrintsDoubles plain_digits
prints_plain = record {
  text = plain_text;
  spelled = plain_spelled;
  grammar = plain_grammar;
  digits = λ d h f. omega arith;
  read_back = plain_read;
}

-- {"a": [true, -5, 7, 0.<1.5>], "b": {}}, where 7 is unsigned.
abbrev document : Value
document = object_ptr (
    field (ascii "a")
      (array_ptr (
        element (bool_value true) (
          element (int64_value (negsuc 4))
            (element (uint64_value 7) (element (double_value 4609434218613702656) no_elements)))))
      (field (ascii "b") (object_ptr no_fields) no_fields))

abbrev compact : ℤ
compact = negsuc 0

abbrev document_text : Bytes
document_text = ascii "{\"a\":[true,-5,7,0.4609434218613702656],\"b\":{}}"

document_written : value_to_json_string plain_digits compact document ≡ ok document_text
unfolding value_to_json_string append_json_value indented overflows field_name pad
    append_escaped_json_string escape escape_ascii signed_to_string to_string decimal is_finite
document_written = refl

document-FitsJson : FitsJson plain_digits prints_plain document
unfolding contains is_subnormal sanitize bytes_eq
document-FitsJson = (refl, (tt, (omega arith, (tt, ((omega arith, refl), tt)))), (refl, tt, tt))

value_from_json_string-value_to_json_string_example :
    value_from_json_string plain_digits document_text
    ≡ some (reread plain_digits prints_plain document)
value_from_json_string-value_to_json_string_example =
    value_from_json_string-value_to_json_string plain_digits prints_plain compact document
      document_text document-FitsJson document_written

document_read :
    value_from_json_string plain_digits document_text
    ≡ some (reread plain_digits prints_plain document)
document_read =
    value_from_json_string-value_to_json_string plain_digits prints_plain compact document
      document_text document-FitsJson document_written

value_from_json_string-IsParsed_example :
    IsParsed (reread plain_digits prints_plain document) max_nesting_depth
value_from_json_string-IsParsed_example =
    value_from_json_string-IsParsed plain_digits document_text
      (reread plain_digits prints_plain document) document_read

value_to_json_string-value_from_json_string_example :
    is_ok (value_to_json_string plain_digits (pos 2) (reread plain_digits prints_plain document))
    ≡ true
value_to_json_string-value_from_json_string_example =
    value_to_json_string-value_from_json_string plain_digits (pos 2) (omega arith) document_text
      (reread plain_digits prints_plain document) document_read

is_ok-value_to_json_string_example :
    is_ok (value_to_json_string plain_digits compact document)
    ≡ (has_text document && leb (levels document) max_nesting_depth)
is_ok-value_to_json_string_example = is_ok-value_to_json_string plain_digits compact tt document

-- A list within a list, 129 levels deep, is one too many.
abbrev nest : ℕ → Value
nest zero = null_value
nest (suc n) = array_ptr (element (nest n) no_elements)

too_deep : is_ok (value_to_json_string plain_digits compact (nest 129)) ≡ false
too_deep =
    is_ok-value_to_json_string plain_digits compact tt (nest 129) ∙ unfold has_text levels in refl

abbrev document_fields : Fields
document_fields =
    field (ascii "b") (object_ptr no_fields) (field (ascii "n") (uint64_value (2 ^ 63)) no_fields)

document_fields-FitsJson : FitsJson plain_digits prints_plain (object_ptr document_fields)
unfolding contains sanitize bytes_eq
document_fields-FitsJson = (refl, tt, (refl, tt, tt))

object_from_json_string-object_to_json_string_example :
    object_from_json_string plain_digits
      (object_to_json_string plain_digits compact document_fields)
    ≡ some (
        if has_text (object_ptr document_fields)
          && leb (levels (object_ptr document_fields)) max_nesting_depth
        then reread_fields plain_digits prints_plain document_fields
        else error_object (
            sanitize 0 (
              message_of (value_to_json_string plain_digits compact (object_ptr document_fields)))))
object_from_json_string-object_to_json_string_example =
    object_from_json_string-object_to_json_string plain_digits prints_plain compact document_fields
      tt document_fields-FitsJson

-- Ten rounds for an input of four bytes.
parse_loops_enough_example :
    (parse_fields (parse_value plain_digits 3) 10 no_fields (ascii "1,2]")
      ≡ parse_fields (parse_value plain_digits 3) 4 no_fields (ascii "1,2]"))
    × (parse_elements (parse_value plain_digits 3) 10 (ascii "1,2]")
        ≡ parse_elements (parse_value plain_digits 3) 4 (ascii "1,2]"))
    × (parse_chars 10 (ascii "1,2]") ≡ parse_chars 4 (ascii "1,2]"))
parse_loops_enough_example =
    parse_loops_enough plain_digits 3 10 no_fields (ascii "1,2]") (omega arith)
