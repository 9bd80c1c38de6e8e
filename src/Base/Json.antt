-- ===== src/Base/Json.antt =====
-- Values that `JSON.parse` returns, over a type `N` of numbers, and what the sources ask of them.
use mathlib.Core.Bool.{Bool, true, false, not}
use mathlib.Core.List.{[]}
use mathlib.Core.Option.{Option, none, some}
use build_a_computer.Base.Tests.{if◌then◌else◌}
use build_a_computer.Base.Strings.{JsString, str_eq}

mutual
  pub data Json (N : Type 0) : Type 0 where
    null : Json N
    bool : Bool → Json N
    num : N → Json N
    str : JsString → Json N
    arr : Items N → Json N
    obj : Fields N → Json N

  pub data Items (N : Type 0) : Type 0 where
    nil : Items N
    cons : Json N → Items N → Items N

  pub data Fields (N : Type 0) : Type 0 where
    end : Fields N
    field : JsString → Json N → Fields N → Fields N

module _ {N : Type 0} where
  -- An own property; `none` is `undefined`.
  unfoldable pub property : JsString → Fields N → Option (Json N)
  unfolding str_eq
  property k end = none
  property k (field j v fs) = if str_eq j k then some v else property k fs

  -- `o.k ?? null`, where `none` is the TypeError of a property of `null`.
  unfoldable pub property_or_null : JsString → Json N → Option (Json N)
  unfolding property
  property_or_null k null = none
  property_or_null k (obj fs) = some (elim (property k fs) [ none ↦ null | some v ↦ v ])
  property_or_null k v = some null

  -- `!v`, where `zero` tells the numbers 0 and NaN.
  abbrev pub is_falsy : (N → Bool) → Json N → Bool
  is_falsy zero null = true
  is_falsy zero (bool b) = not b
  is_falsy zero (num n) = zero n
  is_falsy zero (str []) = true
  is_falsy zero _ = false
