-- ===== src/Scenes/Chart.antt =====
-- The animated chart of frontend/src/features/home/components/benchmark-chart-scene.tsx: its bars, the sweep
-- that measures them again, and the controller of the scene. The draws are those of Random.
pub mod Animation
pub mod Columns
pub mod Rerolling
pub mod Measuring
pub mod Sweeping
use build_a_computer.Base.{
  ℕ, zero, suc, ◌+◌, ◌-◌, Bool, true, false, ◌&&◌, List, [], ◌∷◌, if◌then◌else◌, map, ◌==◌,
}
use build_a_computer.Base.Real.{JsReal}
use build_a_computer.Random.{draw}
use build_a_computer.Scenes.Frames.{Tilt}
use build_a_computer.Scenes.Glow.{GlowLook, GlowTheme, GlowMaterial, apply_glow_theme}

abbrev pub cols : ℕ
cols = 6

abbrev pub rows : ℕ
rows = 4

-- The functions of Math, and `clamp` and `lerp` of three.js.
pub record JsMath (N : Type 0) : Type 0 where
  pub pi : N
  pub sin : N → N
  pub cos : N → N
  pub exp : N → N
  pub pow : N → N → N
  pub clamp : (x low high : N) → N
  pub lerp : (from to t : N) → N

-- `x` and `z` are the place on the floor; `height`, `cap_y` and `intensity` are the scale of the mesh, the position of the cap and the emission of its
-- material.
pub record Bar (N : Type 0) : Type 0 where
  pub row : ℕ
  pub col : ℕ
  pub x : N
  pub z : N
  pub current : N
  pub target : N
  pub flash : N
  pub height : N
  pub cap_y : N
  pub intensity : N

-- What a sweep may measure again: the seed of the generator, the factors of the games, and the bars.
pub record Results (N : Type 0) : Type 0 where
  pub seed : ℕ
  pub game_factor : List N
  pub bars : List (Bar N)

-- The scene: the results, the beam and its line on the floor, which are shown together, and the position of
-- the model.
pub record Chart (T N : Type 0) : Type 0 where
  pub results : Results N
  pub floor_glow : GlowMaterial T N
  pub beam : GlowMaterial T N
  pub is_beam_visible : Bool
  pub beam_x : N
  pub beam_peak : N
  pub last_beam_x : N
  pub rotation_x : N
  pub rotation_y : N
  pub position_y : N

-- The entry of an array, or `undefined`, which counts as NaN.
abbrev pub entry {ℓ} : {A : Type ℓ} → A → List A → ℕ → A
entry nan [] i = nan
entry nan (x ∷ xs) zero = x
entry nan (x ∷ xs) (suc i) = entry nan xs i

-- `xs[i] = x` for an index of the array.
abbrev pub assign {ℓ} : {A : Type ℓ} → List A → ℕ → A → List A
assign [] i x = []
assign (y ∷ ys) zero x = x ∷ ys
assign (y ∷ ys) (suc i) x = y ∷ assign ys i x

-- The numbers below n that follow the ones before k.
abbrev pub range : (k n : ℕ) → List ℕ
range k zero = []
range k (suc n) = k ∷ range (suc k) n

-- The cells of the loops over the rows and the columns, in order.
abbrev row_cells : ℕ → List ℕ → List (ℕ × ℕ) → List (ℕ × ℕ)
row_cells row [] more = more
row_cells row (col ∷ rest) more = (row, col) ∷ row_cells row rest more

abbrev pub cells : List ℕ → List (ℕ × ℕ)
cells [] = []
cells (row ∷ rest) = row_cells row (range 0 cols) (cells rest)

module _ {N : Type 0} (d : JsReal N) where
  abbrev pub spacing : N
  spacing = d.dec 6 1

  -- `(col - (COLS - 1) / 2) * SPACING`.
  unfoldable pub col_x : ℕ → N
  col_x col =
      d.mul (d.sub (d.dec col 0) (d.div (d.sub (d.dec cols 0) (d.dec 1 0)) (d.dec 2 0))) spacing

  unfoldable pub row_z : ℕ → N
  row_z row =
      d.mul (d.sub (d.dec row 0) (d.div (d.sub (d.dec rows 0) (d.dec 1 0)) (d.dec 2 0))) spacing

  abbrev pub tier_factor : List N
  tier_factor = d.dec 1 0 ∷ d.dec 8 1 ∷ d.dec 62 2 ∷ d.dec 45 2 ∷ []

  -- What `random()` gives for the numerator of a draw.
  abbrev pub fraction : ℕ → N
  fraction u = d.div (d.dec u 0) (d.dec 4294967296 0)

  -- `0.55 + random() * 0.45`, and the seed that is left.
  abbrev pub factor : ℕ → N × ℕ
  factor seed = (d.add (d.dec 55 2) (d.mul (fraction (draw seed).0) (d.dec 45 2)), (draw seed).1)

  -- `Array.from({ length: COLS }, ...)`.
  unfoldable pub make_factors : ℕ → ℕ → List N × ℕ
  make_factors zero seed = ([], seed)
  make_factors (suc n) seed =
      let rest = make_factors n (factor seed).1 in ((factor seed).0 ∷ rest.0, rest.1)

  unfoldable pub set_bar : Bar N → N → Bar N
  set_bar bar height =
      let h = d.max height (d.dec 1 3) in
      record bar {
        height = h;
        cap_y = d.add h (d.dec 15 3);
        intensity = d.add (d.dec 1 0) (d.mul bar.flash (d.dec 25 1));
      }

  module _ (nan : N) where
    -- `sample`, a value and the seed that is left.
    abbrev pub sample_value : List N → ℕ → ℕ → ℕ → N
    sample_value game_factor seed row col =
        d.mul (d.mul (d.mul (d.dec 26 1) (entry nan tier_factor row)) (entry nan game_factor col))
          (d.add (d.dec 88 2) (d.mul (fraction (draw seed).0) (d.dec 12 2)))

    -- The turn of a bar in the inner loop of `sweep`.
    unfoldable pub reroll_bar : List N → ℕ → ℕ → Bar N → Bar N × ℕ
    reroll_bar game_factor col seed bar =
        if bar.col == col
        then (
          record bar { target = sample_value game_factor seed bar.row col; flash = d.dec 1 0 },
          (draw seed).1,
        )
        else (bar, seed)

    unfoldable pub reroll_bars : List N → ℕ → ℕ → List (Bar N) → List (Bar N) × ℕ
    reroll_bars game_factor col seed [] = ([], seed)
    reroll_bars game_factor col seed (b ∷ bs) =
        let first = reroll_bar game_factor col seed b in
        let rest = reroll_bars game_factor col first.1 bs in (first.0 ∷ rest.0, rest.1)

    -- A column that the beam crosses.
    unfoldable pub reroll_column : ℕ → Results N → Results N
    reroll_column col r =
        let game_factor = assign r.game_factor col (factor r.seed).0 in
        let rolled = reroll_bars game_factor col (factor r.seed).1 r.bars in
        record { seed = rolled.1; game_factor = game_factor; bars = rolled.0 }

    -- The loop over the columns, with the test of each.
    unfoldable pub reroll : (ℕ → Bool) → List ℕ → Results N → Results N
    reroll crossed [] r = r
    reroll crossed (col ∷ rest) r =
        reroll crossed rest (if crossed col then reroll_column col r else r)

    unfoldable pub make_bars : List N → List (ℕ × ℕ) → ℕ → List (Bar N) × ℕ
    make_bars game_factor [] seed = ([], seed)
    make_bars game_factor ((row, col) ∷ rest) seed =
        let others = make_bars game_factor rest (draw seed).1 in
        (
          record {
            row = row;
            col = col;
            x = col_x col;
            z = row_z row;
            current = d.dec 0 0;
            target = sample_value game_factor seed row col;
            flash = d.dec 0 0;
            height = d.dec 1 0;
            cap_y = d.dec 0 0;
            intensity = d.dec 1 0;
          }
              ∷ others.0,
          others.1,
        )

    -- What `setupBenchmarkChart` makes with `mulberry32(7)`.
    unfoldable pub set_up : Results N
    set_up =
        let factors = make_factors cols 7 in
        let made = make_bars factors.0 (cells (range 0 rows)) factors.1 in
        record { seed = made.1; game_factor = factors.0; bars = made.0 }
