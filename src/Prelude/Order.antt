-- ===== src/Prelude/Order.antt =====
-- The order of strings by code units is a strict total order.
use mathlib.Core.Path.{◌≡◌, refl}
use mathlib.Core.Bool.{true, false}
use mathlib.Core.List.{[], ◌∷◌}
use native.Mathlib.Omega.{arith}
use aegisone_core.Prelude.Text.{Str, str_lt}

pub str_lt_irrefl : (s : Str) → str_lt s s ≡ false
unfolding str_lt
str_lt_irrefl [] = refl
str_lt_irrefl (a ∷ s) = ground (arith, str_lt_irrefl s)

pub str_lt-asymm : (s t : Str) → str_lt s t ≡ true → str_lt t s ≡ false
unfolding str_lt
str_lt-asymm s [] h = ground arith
str_lt-asymm [] (b ∷ t) h = refl
str_lt-asymm (a ∷ s) (b ∷ t) h = ground (arith, str_lt-asymm s t)

pub str_lt_trans : (s t u : Str) → str_lt s t ≡ true → str_lt t u ≡ true → str_lt s u ≡ true
unfolding str_lt
str_lt_trans s t [] h k = ground arith
str_lt_trans s [] (c ∷ u) h k = ground arith
str_lt_trans [] (b ∷ t) (c ∷ u) h k = refl
str_lt_trans (a ∷ s) (b ∷ t) (c ∷ u) h k = ground (arith, str_lt_trans s t u)

pub str_lt-connex : (s t : Str) → str_lt s t ≡ false → str_lt t s ≡ false → s ≡ t
unfolding str_lt
str_lt-connex [] [] h k = refl
str_lt-connex [] (b ∷ t) h k = ground arith
str_lt-connex (a ∷ s) [] h k = ground arith
str_lt-connex (a ∷ s) (b ∷ t) h k = ground (arith, str_lt-connex s t)
