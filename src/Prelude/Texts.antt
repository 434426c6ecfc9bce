-- ===== src/Prelude/Texts.antt =====
-- Whole texts, which the program only compares.
use Prim.Native.String.{String}
use mathlib.Core.Path.{◌≡◌}
use mathlib.Core.Logic.{◌↔◌}
use mathlib.Core.Bool.{Bool, true}
use text.Mathlib.Text.{◌==◌}
use text.Mathlib.TextEquality.{eq_iff}

abbrev pub same_text : String → String → Bool
same_text a b = a == b

pub same_text_iff : (a b : String) → (same_text a b ≡ true) ↔ (a ≡ b)
same_text_iff = eq_iff
