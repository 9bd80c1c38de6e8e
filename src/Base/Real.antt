-- ===== src/Base/Real.antt =====
-- The arithmetic of JavaScript on fractions, as an interface: what the animations compute with. Each
-- use names the laws that it rests on.
use Prim.Native.Nat.{ℕ}
use mathlib.Core.Path.{◌≡◌}
use mathlib.Core.Bool.{Bool, true}

pub record JsReal (N : Type 0) : Type 0 where
  -- The literal `m / 10 ** k`: `dec 4 2` is 0.04.
  pub dec : (m k : ℕ) → N
  pub add : N → N → N
  pub sub : N → N → N
  pub mul : N → N → N
  pub div : N → N → N
  -- `x % y`.
  pub rem : N → N → N
  -- `Math.min` and `Math.max`.
  pub min : N → N → N
  pub max : N → N → N
  pub lt : N → N → Bool
  pub le : N → N → Bool
  -- `!x`: the number is 0 or NaN.
  pub is_falsy : N → Bool

-- What holds of the finite numbers.
pub record IsArithmetic {N : Type 0} (d : JsReal N) : Type 0 where
  pub le_refl : (x : N) → d.le x x ≡ true
  pub le_trans : (x y z : N) → d.le x y ≡ true → d.le y z ≡ true → d.le x z ≡ true
  pub zero_falsy : d.is_falsy (d.dec 0 0) ≡ true
  pub dec_pos : (m k : ℕ) → d.le (d.dec 0 0) (d.dec m k) ≡ true
  pub sub_nonneg : (x y : N) → d.le y x ≡ true → d.le (d.dec 0 0) (d.sub x y) ≡ true
  pub div_nonneg :
      (x : N) → d.le (d.dec 0 0) x ≡ true → d.le (d.dec 0 0) (d.div x (d.dec 1000 0)) ≡ true
  pub min_nonneg :
      (x y : N)
      → d.le (d.dec 0 0) x ≡ true
      → d.le (d.dec 0 0) y ≡ true
      → d.le (d.dec 0 0) (d.min x y) ≡ true
  pub min_le : (x y : N) → d.le (d.min x y) y ≡ true
