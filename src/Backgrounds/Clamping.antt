-- ===== src/Backgrounds/Clamping.antt =====
-- `Math.max(a, Math.min(b, z))` of a whole number.
use build_a_computer.Base.{ℕ, ◌≤◌, ◌≡◌, refl, inl, inr, true, leb, Bool-cases, arith}
use build_a_computer.Panels.{ℤ, pos, negsuc, leb_ℤ, min, max}

-- The clamped number lies between the bounds.
pub clamp_lem :
    (a b : ℕ) (z : ℤ) → a ≤ b → (k : ℕ) × (max (pos a) (min (pos b) z) ≡ pos k) × (a ≤ k) × (k ≤ b)
unfolding max min leb_ℤ
clamp_lem a b (negsuc n) h = (a, refl, omega arith, h)
clamp_lem a b (pos n) h = elim (Bool-cases (leb b n)) [
  | inl e ↦ let g : leb a b ≡ true = ground (arith, h) in (b, rw (e, g) refl, h, omega arith)
  | inr e ↦ elim (Bool-cases (leb a n)) [
    | inl f ↦ (n, rw (e, f) refl, ground (arith, f), ground (arith, e))
    | inr f ↦ (a, rw (e, f) refl, omega arith, h)
  ]
]
