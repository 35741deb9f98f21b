-- ===== src/Json/Tests.antt =====
-- The theorem on JSON strings at a concrete string: a quote, a tab, an e with an acute accent, and a
-- byte that is not UTF-8.
use pp_cpp_common.Common.{Bytes, [], refl, ◌∷◌, ◌≡◌}
use pp_cpp_common.Json.Strings.{append_escaped_json_string, escape, escape_ascii}
use pp_cpp_common.Json.Utf8.{classify_utf8_lead, sequence, take_tail}

abbrev mixed : Bytes
mixed = 34 ∷ 9 ∷ 195 ∷ 169 ∷ 255 ∷ []

mixed_escaped :
    append_escaped_json_string mixed
    ≡ 34 ∷ 92 ∷ 34 ∷ 92 ∷ 116 ∷ 195 ∷ 169 ∷ 239 ∷ 191 ∷ 189 ∷ 34 ∷ []
unfolding append_escaped_json_string escape escape_ascii sequence classify_utf8_lead take_tail
mixed_escaped = refl
