-- ===== src/Preflight/Identity.antt =====
-- The request hash of preflight/engine.ts belongs to the value of the raw text, not to its spelling.
use aegisone_core.Prelude.{◌≡◌, sym, ap, ◌∙◌, Str, some, arith}
use aegisone_core.Json.{Value, obj}
use aegisone_core.Json.Lexer.{ok}
use aegisone_core.Json.Parse.{parse_strict_json}
use aegisone_core.Json.Canonical.{canonicalize_json}
use aegisone_core.Json.Reordering.{Reordered, canonicalize_json-Reordered}
use aegisone_core.Contracts.{ParsedEnvelope}
use aegisone_core.Crypto.{Crypto, sha256_text}
use aegisone_core.Preflight.{envelope, run_strict_preflight}
use aegisone_core.Preflight.Accepted.{run_strict_preflight-IsEnvelope}

canonical-of :
    (c : Crypto) (raw : Str) (v : Value) (e : ParsedEnvelope)
    → parse_strict_json raw ≡ ok v
    → run_strict_preflight c raw ≡ some (envelope e)
    → (canonicalize_json v ≡ some e.canonical_input)
      × (e.request_hash ≡ sha256_text c e.canonical_input)
canonical-of c raw v e p h =
    let a = run_strict_preflight-IsEnvelope c raw e h in
    let same : obj a.root ≡ v = ground (arith, a.parsed) in (rw same at a.canonical, a.hashed)

-- Two accepted raw texts whose values differ only in the order of the fields of their objects, at
-- any depth, have the same canonical text and the same request hash.
pub request_hash-Reordered :
    (c : Crypto) (raw other : Str) (v w : Value) (d e : ParsedEnvelope)
    → parse_strict_json raw ≡ ok v
    → parse_strict_json other ≡ ok w
    → Reordered v w
    → run_strict_preflight c raw ≡ some (envelope d)
    → run_strict_preflight c other ≡ some (envelope e)
    → (d.canonical_input ≡ e.canonical_input) × (d.request_hash ≡ e.request_hash)
request_hash-Reordered c raw other v w d e p q r hd he =
    let (left, left_hash) = canonical-of c raw v d p hd in
    let (right, right_hash) = canonical-of c other w e q he in
    let same : d.canonical_input ≡ e.canonical_input =
      ground (arith, canonicalize_json-Reordered v w r) in
    (same, left_hash ∙ ap (sha256_text c) same ∙ sym right_hash)
