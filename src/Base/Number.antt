-- ===== src/Base/Number.antt =====
-- The numbers of JavaScript. The model has no floating point: the operations that the sources call
-- are an interface, and what IEEE 754 and ECMAScript promise of finite numbers are its laws.
use build_a_computer.Base.Strings.{JsString}
use Prim.Native.Nat.{ℕ}
use mathlib.Core.Path.{◌≡◌}
use mathlib.Core.Logic.{◌⊎◌}
use mathlib.Core.Bool.{Bool, true, false, not}

pub record JsNumber (N : Type 0) : Type 0 where
  pub of_ℕ : ℕ → N
  -- `<`, `<=` and `===`.
  pub lt : N → N → Bool
  pub le : N → N → Bool
  pub eq : N → N → Bool
  -- SameValueZero, by which `includes`, `Set` and `Map` compare.
  pub same : N → N → Bool
  pub add : N → N → N
  pub sub : N → N → N
  -- `Math.max(x, y)`.
  pub max : N → N → N
  pub is_finite : N → Bool
  pub is_nan : N → Bool
  pub is_integer : N → Bool
  -- `Number(s)`, `parseInt(s, 10)` and `String(n)`.
  pub of_string : JsString → N
  pub parse_int : JsString → N
  pub to_string : N → JsString

abbrev pub IsFinite : {N : Type 0} ⦃d : JsNumber N⦄ → N → Type 0
IsFinite ⦃d⦄ x = d.is_finite x ≡ true

pub record IsOrdered {N : Type 0} (d : JsNumber N) : Type 0 where
  pub lt_irrefl : (x : N) → d.lt x x ≡ false
  pub lt_trans : (x y z : N) → d.lt x y ≡ true → d.lt y z ≡ true → d.lt x z ≡ true
  -- Away from NaN the order is total.
  pub ge_trans :
      (x y z : N) → d.is_finite y ≡ true → d.lt x y ≡ false → d.lt y z ≡ false → d.lt x z ≡ false
  pub le-eq-not-lt :
      (x y : N) → d.is_finite x ≡ true → d.is_finite y ≡ true → d.le x y ≡ not (d.lt y x)
  -- The sign of a difference of finite numbers is exact.
  pub sub_pos :
      (x y : N)
      → d.is_finite x ≡ true
      → d.is_finite y ≡ true
      → d.lt (d.of_ℕ 0) (d.sub x y) ≡ d.lt y x
  -- The larger of two finite numbers is one of them, and below neither.
  pub max_finite :
      (x y : N) → d.is_finite x ≡ true → d.is_finite y ≡ true → d.is_finite (d.max x y) ≡ true
  pub max_ge :
      (x y : N)
      → d.is_finite x ≡ true
      → d.is_finite y ≡ true
      → (d.lt (d.max x y) x ≡ false) × (d.lt (d.max x y) y ≡ false)
  pub max_eq : (x y : N) → (d.max x y ≡ x) ⊎ (d.max x y ≡ y)
