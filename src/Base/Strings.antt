-- ===== src/Base/Strings.antt =====
-- `==` of `std::string`.
use Prim.Native.String.{String}
use text.Mathlib.Text
use text.Mathlib.TextEquality.{eq_iff}
use mathlib.Core.Path.{◌≡◌, refl}
use mathlib.Core.Logic.{◌⊎◌, inl, inr, ◌≢◌}
use mathlib.Core.Bool.{Bool, true, false}
use open3dstream.Base.Tests.{Bool-cases}

unfoldable pub same_text : String → String → Bool
same_text s t = Text.◌==◌ s t

pub same_text_refl : (s : String) → same_text s s ≡ true
unfolding same_text
same_text_refl s = (eq_iff s s).1 refl

-- To split on a comparison.
pub Text-cases :
    (s t : String) → ((same_text s t ≡ true) × (s ≡ t)) ⊎ ((same_text s t ≡ false) × (s ≢ t))
unfolding same_text
Text-cases s t = elim (Bool-cases (same_text s t)) [
  | inl y ↦ inl (y, (eq_iff s t).0 y)
  | inr n ↦ inr (n, λ e. cc (n, (eq_iff s t).1 e))
]

pub same_text_differs : {s t : String} → same_text s t ≡ false → s ≢ t
same_text_differs {s} {t} e = elim (Text-cases s t) [
  | inl (y, _) ↦ absurd cc (e, y)
  | inr (_, n) ↦ n
]
