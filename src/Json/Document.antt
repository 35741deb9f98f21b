-- ===== src/Json/Document.antt =====
-- objectToJsonString and objectFromJsonString of src/io/Json.cpp, and the helpers of
-- include/common/ValueJson.h that parse and dump whole documents.
use pp_cpp_common.Common.{Bytes, Option, [], none, some, ◌++◌, ◌∷◌}
use pp_cpp_common.Common.Int.{ℤ}
use pp_cpp_common.Json.Encoder.{value_to_json_string}
use pp_cpp_common.Json.Numbers.{Doubles}
use pp_cpp_common.Json.Parser.{value_from_json_string}
use pp_cpp_common.Json.Strings.{append_escaped_json_string}
use pp_cpp_common.Results.{Roe, ascii, err, ok}
use pp_cpp_common.Value.{Fields, Value, object_ptr}
use pp_cpp_common.Value.Access.{as_object}

abbrev pub or_error_text : Roe Bytes → Bytes
or_error_text (ok text) = text
or_error_text (err e) = ascii "{\"error\":" ++ (append_escaped_json_string e.message ++ (125 ∷ []))

abbrev pub root_object : Option Value → Option Fields
root_object none = none
root_object (some v) = as_object v

abbrev pub or_failed : Roe Bytes → Bytes
or_failed (ok text) = text
or_failed (err e) = ascii "{\"error\":\"json_encode_failed\"}"

module _ (io : Doubles) where
  unfoldable pub object_to_json_string : ℤ → Fields → Bytes
  object_to_json_string indent fs = or_error_text (value_to_json_string io indent (object_ptr fs))

  -- none where the code answers false and leaves the object as it was.
  unfoldable pub object_from_json_string : Bytes → Option Fields
  object_from_json_string json = root_object (value_from_json_string io json)

  unfoldable pub parse_root : Bytes → Option Fields
  parse_root json = root_object (value_from_json_string io json)

  unfoldable pub dump_json : ℤ → Value → Bytes
  dump_json indent v = or_failed (value_to_json_string io indent v)
