-- ===== src/Examples/Backgrounds.antt =====
-- The backgrounds on thousandths, in layers of a hundred by eighty pixels.
use build_a_computer.Base.{
  ℕ, zero, suc, ◌+◌, ◌*◌, ◌/◌, ◌≤◌, ◌<◌, ltb, ◌≡◌, refl, true, false, some, List, [], ◌∷◌, length,
  All, arith, ◌==◌,
}
use build_a_computer.Canvas.{LayerSize}
use build_a_computer.Panels.{pos}
use build_a_computer.Backgrounds.{FieldMath}
use build_a_computer.Backgrounds.Motes.{MoteState}
use build_a_computer.Backgrounds.Motes
use build_a_computer.Backgrounds.Motes.Laws.{AreWhole, frames, setup-frames}
use build_a_computer.Backgrounds.Galaxy.{Particle, GalaxyOp, fill_style, fill_rect, fade}
use build_a_computer.Backgrounds.Galaxy
use build_a_computer.Backgrounds.Galaxy.Laws.{
  IsArm, IsRandom, IsScaling, trails, discs, bright, setup-draw,
}
use build_a_computer.Examples.Numbers.{thousandths}
use build_a_computer.Examples.Canvas.{motes}

-- Whole numbers are their thousandths, and the waves stand still.
abbrev functions : FieldMath ℕ
functions = record {
  pi = 3142;
  sin = λ x. 0;
  cos = λ x. 1000;
  pow = λ x y. x;
  hypot = λ x y. x + y;
  sqrt = λ x. x;
  log = λ x. x;
  round = λ x. pos ((x + 500) / 1000);
  floor = λ x. pos (x / 1000);
  ceil = λ x. x;
  same = λ x y. x == y;
}

abbrev size : LayerSize ℕ
size = record { width = 100000; height = 80000 }

abbrev random : ℕ → ℕ
random k = 500

abbrev made : MoteState ℕ
made = (Motes.setup thousandths functions random true [] size 1000 0).0

setup-frames_example :
    AreWhole (Motes.setup thousandths functions random true [] size 1000 0).1
    × (t : MoteState ℕ) × (frames thousandths functions ((false, true) ∷ (true, false) ∷ []) made
        ≡ some t)
    × (length t.motes ≡ length made.motes)
    × (60 ≤ length t.motes)
    × (length t.motes ≤ 420)
setup-frames_example =
    setup-frames thousandths functions random true [] size 1000 0
      ((false, true) ∷ (true, false) ∷ []) tt

random-IsRandom : IsRandom thousandths random
random-IsRandom = record { nonneg = λ k. refl; below_one = λ k. refl }

times_below : (x n : ℕ) → ltb x 1000 ≡ true → x * suc n < suc n * 1000
times_below x zero h = ground arith
times_below x (suc n) h = ground (arith, times_below x n h)

below : (x n : ℕ) → ltb x 1000 ≡ true → x * (suc n * 1000) / 1000 < suc n * 1000
below x n h = ground (arith, times_below x n h)

functions-IsScaling : IsScaling thousandths functions
functions-IsScaling = record {
  mul_nonneg = λ x n h. ground arith;
  mul_below = λ x n h k. ground (arith, below x n k);
  floor_below = λ y n h k. (y / 1000, refl, ground arith);
}

setup-draw_example :
    let s = (Galaxy.setup thousandths functions random size true 0).0 in
    (250 ≤ length s.particles)
    × (length s.particles ≤ 1600)
    × All (λ (p : Particle ℕ). IsArm p.arm_index) s.particles
    × (ops : List (GalaxyOp ℕ)) × (Galaxy.draw thousandths functions s size 7000 false false
        ≡ fill_style (fade false) ∷ fill_rect 0 0 100000 80000 ∷ ops)
    × (trails ops ≡ length s.particles)
    × (discs ops ≡ length (bright thousandths functions s.particles))
setup-draw_example =
    setup-draw thousandths functions random random-IsRandom functions-IsScaling size true 0 7000
      false false
