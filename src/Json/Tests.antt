-- ===== src/Json/Tests.antt =====
-- Runs of the strict parser and the canonical printer.
use aegisone_core.Prelude.{lit, some, str_lt, ◌≡◌, refl, true}
use aegisone_core.Json.{Value, obj, field, end, arr, cons, nil, num, nat, minus, bool}
use aegisone_core.Json.Lexer.{ok, fail, duplicate_json_keys, invalid_json_number}
use aegisone_core.Json.Parse.{parse_strict_json}
use aegisone_core.Json.Canonical.{
  canonicalize_json, serialize_number, decimal, insert_key, join, print_pairs, quote,
}

abbrev sample : Value
sample = obj (
    field (lit "b") (arr (cons (num (nat 12)) (cons (num (minus 0)) nil)))
      (field (lit "a") (bool true) end))

parse_sample : parse_strict_json (lit " {\"b\": [12, -0 ], \"a\":true}") ≡ ok sample
unfolding parse_strict_json
parse_sample = refl

parse_failures :
    (parse_strict_json (lit "{\"a\":1,\"a\":2}") ≡ fail duplicate_json_keys)
    × (parse_strict_json (lit "[1.5]") ≡ fail invalid_json_number)
unfolding parse_strict_json
parse_failures = (refl, refl)

print_sample : canonicalize_json sample ≡ some (lit "{\"a\":true,\"b\":[12,0]}")
unfolding canonicalize_json serialize_number decimal insert_key str_lt join print_pairs quote
print_sample = refl
