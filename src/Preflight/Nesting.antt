-- ===== src/Preflight/Nesting.antt =====
-- How deep the brackets of a raw text nest, as far as the parser of shared/json.ts can follow them.
use aegisone_core.Prelude.{ℕ, ◌+◌, ◌-◌, max, ◌==◌, ◌||◌, Str, [], ◌∷◌, if◌then◌else◌}

-- Where the scan of a text stands: outside of a string, in one, or behind a backslash in one.
pub data Scan : Type 0 where
  outside inside escaped : Scan

abbrev pub scan : Scan → ℕ → Scan
scan outside c = if c == b'"' then inside else outside
scan inside c = if c == b'"' then outside else if c == b'\\' then escaped else inside
scan escaped c = inside

abbrev pub depth_after : Scan → ℕ → ℕ → ℕ
depth_after outside c d =
    if c == b'[' || c == b'{' then d + 1 else if c == b']' || c == b'}' then d - 1 else d
depth_after _ c d = d

abbrev pub deepest : Scan → ℕ → Str → ℕ
deepest at d [] = d
deepest at d (c ∷ s) = max d (deepest (scan at c) (depth_after at c d) s)

-- How deep the brackets of a text nest.
abbrev pub nesting : Str → ℕ
nesting raw = deepest outside 0 raw
