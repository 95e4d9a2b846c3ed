-- ===== src/Prelude/Strings.antt =====
-- Strings that the test of equality tells apart, or does not.
use mathlib.Core.Path.{◌≡◌}
use mathlib.Core.Logic.{◌≢◌, inl, inr}
use mathlib.Core.Bool.{true, false}
use Prim.Native.String.{String}
use native.Mathlib.Omega.{arith}
use text.Mathlib.Text.{◌==◌ as str_eq}
use text.Mathlib.TextEquality.{eq_iff}
use coeus.Prelude.Tests.{Bool-cases}

pub str_eq-apart : (s t : String) → str_eq s t ≡ false → s ≢ t
str_eq-apart s t h e = let same : str_eq s t ≡ true = (eq_iff s t).1 e in ground arith

pub apart-str_eq : (s t : String) → s ≢ t → str_eq s t ≡ false
apart-str_eq s t apart = elim (Bool-cases (str_eq s t)) [
  | inl e ↦ absurd (apart ((eq_iff s t).0 e))
  | inr e ↦ e
]
