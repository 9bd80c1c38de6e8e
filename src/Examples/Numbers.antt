-- ===== src/Examples/Numbers.antt =====
-- Natural numbers as the numbers of the examples: their difference stops at 0, which keeps its sign
-- test.
use build_a_computer.Base.{
  ℕ, zero, suc, ◌+◌, ◌-◌, ◌*◌, ◌/◌, ◌%◌, ◌^◌, refl, Bool, true, false, [], ◌∷◌, arith, ltb, leb,
  ◌==◌, if◌then◌else◌,
}
use build_a_computer.Base.Strings.{JsString}
use build_a_computer.Base.Number.{JsNumber, IsOrdered}
use build_a_computer.Base.Real.{JsReal, IsArithmetic}

abbrev pub larger : ℕ → ℕ → ℕ
larger x y = if ltb x y then y else x

-- The digits of a number below 10 ^ fuel, before more of them.
abbrev decimal : ℕ → ℕ → JsString → JsString
decimal zero n more = more
decimal (suc fuel) n more =
    let here = (48 + n % 10) ∷ more in if ltb n 10 then here else decimal fuel (n / 10) here

abbrev read : ℕ → JsString → ℕ
read n [] = n
read n (c ∷ s) = read (n * 10 + (c - 48)) s

instance abbrev pub naturals : JsNumber ℕ
naturals = record {
  of_ℕ = λ n. n;
  lt = ltb;
  le = leb;
  eq = λ x y. x == y;
  same = λ x y. x == y;
  add = λ x y. x + y;
  sub = λ x y. x - y;
  max = larger;
  is_finite = λ _. true;
  is_nan = λ _. false;
  is_integer = λ _. true;
  of_string = read 0;
  parse_int = read 0;
  to_string = λ n. decimal 20 n [];
}

pub naturals-IsOrdered : IsOrdered naturals
naturals-IsOrdered = record {
  lt_irrefl = λ x. ground arith;
  lt_trans = λ x y z h k. ground arith;
  ge_trans = λ x y z _ h k. ground arith;
  le-eq-not-lt = λ x y _ _. ground arith;
  sub_pos = λ x y _ _. ground arith;
  max_finite = λ x y _ _. refl;
  max_ge = λ x y _ _. ground arith;
  max_eq = λ x y. ground arith;
}

-- `zero` of the sources' truth tests.
abbrev pub is_zero : ℕ → Bool
is_zero n = n == 0

-- Thousandths as the fractions of the examples; a difference stops at 0.
abbrev pub thousandths : JsReal ℕ
thousandths = record {
  dec = λ m k. m * 1000 / 10 ^ k;
  add = λ x y. x + y;
  sub = λ x y. x - y;
  mul = λ x y. x * y / 1000;
  div = λ x y. x * 1000 / y;
  rem = λ x y. x % y;
  min = λ x y. if ltb x y then x else y;
  max = larger;
  lt = ltb;
  le = leb;
  is_falsy = is_zero;
}

pub thousandths-IsArithmetic : IsArithmetic thousandths
thousandths-IsArithmetic = record {
  le_refl = λ x. ground arith;
  le_trans = λ x y z h k. ground arith;
  zero_falsy = refl;
  dec_pos = λ m k. ground arith;
  sub_nonneg = λ x y h. ground arith;
  div_nonneg = λ x h. ground arith;
  min_nonneg = λ x y h k. ground arith;
  min_le = λ x y. ground arith;
}
