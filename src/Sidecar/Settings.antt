-- ===== src/Sidecar/Settings.antt =====
-- The settings that the sidecar's configuration objects hold, before they are checked.
use aegisone_core.Prelude.{ℕ, Str, Bool, false, ltb}

-- A property of a configuration object: absent, a safe integer that is not negative, a string, or
-- any other value.
pub data Setting : Type 0 where
  absent : Setting
  natural : ℕ → Setting
  text : Str → Setting
  other : Setting

-- `positiveInteger`.
abbrev pub positive_integer : Setting → Bool
positive_integer (natural n) = ltb 0 n
positive_integer _ = false

-- `value ?? fallback` of a number.
abbrev pub or_default : Setting → ℕ → Setting
or_default absent n = natural n
or_default s n = s

-- The number of a setting that `positive_integer` passes.
abbrev pub number : Setting → ℕ
number (natural n) = n
number _ = 0
