-- ===== src/Common/Number.antt =====
-- Products of native numbers.
use native.Mathlib.Nat.{le-div_iff_mul-le, mul-div_cancel}
use mathlib.Core.Path.{◌≡◌, subst, ap, ◌∙◌}
use Prim.Native.Nat.{ℕ, ◌+◌, ◌-◌, ◌*◌, ◌≤◌, ◌<◌}
use native.Mathlib.Omega.{arith}

pub le_of_scaled : (a b t : ℕ) → 0 < t → a * t ≤ b * t → a ≤ b
le_of_scaled a b t p h = subst (λ n. a ≤ n) (mul-div_cancel b p) ((le-div_iff_mul-le p).1 h)

cut : (d s t x : ℕ) → s * t + x ≡ (s + d) * t → d * t ≡ x
cut d s t x e = grind arith

pub rest_scaled : (u s t x : ℕ) → s ≤ u → s * t + x ≡ u * t → (u - s) * t ≡ x
rest_scaled u s t x le e = cut (u - s) s t x (e ∙ ap (λ n. n * t) (omega arith))
