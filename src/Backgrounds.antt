-- ===== src/Backgrounds.antt =====
-- The layers of the animated backgrounds, which the driver of Canvas shows: Backgrounds/Motes is
-- frontend/src/components/mote-field.tsx, Backgrounds/Galaxy components/milky-way-field.tsx, and
-- Backgrounds/Split features/home/components/split-field.tsx.
pub mod Clamping
pub mod Motes
pub mod Split
pub mod Galaxy
use build_a_computer.Base.{ℕ, zero, suc, Bool, Option, none, List, get_elem?}
use build_a_computer.Panels.{ℤ, pos, negsuc}

-- The functions of Math that the layers call, on finite numbers; `round`, `floor` and `ceil` give whole ones.
pub record FieldMath (N : Type 0) : Type 0 where
  pub pi : N
  pub sin : N → N
  pub cos : N → N
  pub pow : N → N → N
  pub hypot : N → N → N
  pub sqrt : N → N
  pub log : N → N
  pub round : N → ℤ
  pub floor : N → ℤ
  pub ceil : N → N
  -- SameValueZero, by which a Map finds its keys.
  pub same : N → N → Bool

-- `xs[i]`, which is undefined out of range.
abbrev pub at_index {ℓ} : {A : Type ℓ} → List A → ℤ → Option A
at_index xs (pos n) = get_elem? xs n
at_index xs (negsuc n) = none

-- How often `for (let i = 0; i < count; i++)` turns.
abbrev pub turns : ℤ → ℕ
turns (pos n) = n
turns (negsuc n) = zero
