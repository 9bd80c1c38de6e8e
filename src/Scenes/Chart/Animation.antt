-- ===== src/Scenes/Chart/Animation.antt =====
-- The sweep and the controller of frontend/src/features/home/components/benchmark-chart-scene.tsx.
use build_a_computer.Base.{ℕ, ◌+◌, ◌-◌, Bool, false, ◌&&◌, if◌then◌else◌, map}
use build_a_computer.Base.Real.{JsReal}
use build_a_computer.Scenes.Frames.{Tilt}
use build_a_computer.Scenes.Glow.{GlowTheme, apply_glow_theme, make_glow_material}
use build_a_computer.Scenes.Chart.{
  cols, rows, JsMath, Bar, Results, Chart, range, spacing, col_x, reroll, set_up, set_bar,
}

module _ {N : Type 0} (d : JsReal N) where
  abbrev pub floor_glow_theme : GlowTheme N
  floor_glow_theme = record {
    dark = record { color = 0xd97706; opacity = d.dec 4 1 };
    light = record { color = 0xb45309; opacity = d.dec 18 2 };
  }

  abbrev pub beam_theme : GlowTheme N
  beam_theme = record {
    dark = record { color = 0xfbbf24; opacity = d.dec 9 1 };
    light = record { color = 0xd97706; opacity = d.dec 45 2 };
  }

  abbrev pub grid_width : N
  grid_width = d.mul (d.dec cols 0) (spacing d)

  -- `-GRID_W / 2 - 0.2` and `GRID_W / 2 + 0.2`; `-x` is 0 - x.
  abbrev pub beam_start : N
  beam_start = d.sub (d.div (d.sub (d.dec 0 0) grid_width) (d.dec 2 0)) (d.dec 2 1)

  abbrev pub beam_end : N
  beam_end = d.add (d.div grid_width (d.dec 2 0)) (d.dec 2 1)

  abbrev pub intro_delay : N
  intro_delay = d.dec 35 2

  abbrev pub grow_duration : N
  grow_duration = d.dec 14 1

  abbrev pub stagger : N
  stagger = d.dec 8 2

  abbrev pub intro_end : N
  intro_end = d.add (d.add intro_delay grow_duration) (d.mul stagger (d.dec (cols + rows - 2) 0))

  module _ (m : JsMath N) where
    -- `1 - Math.pow(1 - t, 3)`.
    unfoldable pub ease_out_cubic : N → N
    ease_out_cubic t = d.sub (d.dec 1 0) (m.pow (d.sub (d.dec 1 0) t) (d.dec 3 0))

    -- The height of a bar that grows.
    unfoldable pub grow : N → Bar N → Bar N
    unfolding ease_out_cubic set_bar
    grow t bar =
        let steps = d.dec bar.col 0 in
        let behind = d.sub (d.dec (rows - 1) 0) (d.dec bar.row 0) in
        let delay = d.add intro_delay (d.mul stagger (d.add steps behind)) in
        let share = m.clamp (d.div (d.sub t delay) grow_duration) (d.dec 0 0) (d.dec 1 0) in
        let current = d.mul bar.target (ease_out_cubic share) in
        set_bar d (record bar { current = current }) current

    -- The turn of a bar in the last loop of `sweep`.
    unfoldable pub relax : N → Bar N → Bar N
    unfolding set_bar
    relax dt bar =
        let ease = d.sub (d.dec 1 0) (m.exp (d.mul (d.sub (d.dec 0 0) dt) (d.dec 4 0))) in
        let current = d.add bar.current (d.mul (d.sub bar.target bar.current) ease) in
        let flash = d.max (d.sub bar.flash (d.mul dt (d.dec 15 1))) (d.dec 0 0) in
        set_bar d (record bar { current = current; flash = flash }) current

    unfoldable pub phase_at : N → N
    phase_at t = d.div (d.rem (d.sub t intro_end) (d.dec 5 0)) (d.dec 32 1)

    unfoldable pub beam_at : N → N
    unfolding phase_at
    beam_at t = m.lerp beam_start beam_end (d.min (phase_at t) (d.dec 1 0))

    abbrev pub is_sweeping : N → Bool
    is_sweeping t = d.le (phase_at t) (d.dec 1 0)

    -- `lastBeamX < x && x <= beamX`.
    abbrev pub is_crossed : (last_beam_x beam_x : N) → ℕ → Bool
    is_crossed last_beam_x beam_x col = d.lt last_beam_x (col_x d col) && d.le (col_x d col) beam_x

    module _ {T : Type 0} (nan : N) where
      -- The columns that a sweep measures again.
      abbrev pub is_measured : N → Chart T N → ℕ → Bool
      is_measured t c col =
          if is_sweeping t && d.lt c.last_beam_x (beam_at t)
          then is_crossed c.last_beam_x (beam_at t) col
          else false

      unfoldable pub measure : N → Chart T N → Results N
      measure t c =
          if is_sweeping t && d.lt c.last_beam_x (beam_at t)
          then reroll d nan (is_crossed c.last_beam_x (beam_at t)) (range 0 cols) c.results
          else c.results

      unfoldable pub sweep : (t dt : N) → Chart T N → Chart T N
      unfolding measure relax beam_at
      sweep t dt c =
          let measured = measure t c in
          let opacity =
            if is_sweeping t
            then d.mul c.beam_peak (m.sin (d.mul m.pi (phase_at t)))
            else d.dec 0 0 in
          record c {
            results = record measured { bars = map (relax dt) measured.bars };
            beam = record c.beam { opacity = opacity };
            is_beam_visible = is_sweeping t;
            beam_x = beam_at t;
            last_beam_x = if is_sweeping t then beam_at t else beam_start;
          }

      unfoldable pub update : (t dt : N) → Tilt N → Chart T N → Chart T N
      unfolding grow sweep
      update t dt tilt c =
          let grown : Chart T N = record c {
            results = record c.results { bars = map (grow t) c.results.bars };
          } in
          let moved = if d.lt t intro_end then grown else sweep t dt c in
          record moved {
            rotation_y =
                d.add (d.mul (m.sin (d.mul t (d.dec 25 2))) (d.dec 8 2)) (d.mul tilt.x (d.dec 1 1));
            rotation_x = d.mul tilt.y (d.dec 4 2);
            position_y = d.mul (m.sin (d.mul t (d.dec 9 1))) (d.dec 5 2);
          }

  module _ {T : Type 0} where
    abbrev pub at_rest : Chart T N → Chart T N
    at_rest c = record c { rotation_x = d.dec 0 0; rotation_y = d.dec 0 0; position_y = d.dec 0 0 }

    -- But for the camera, which is fitted to the model in this position.
    unfoldable pub fit : Chart T N → Chart T N
    fit c = at_rest c

    unfoldable pub pose : Chart T N → Chart T N
    unfolding set_bar
    pose c = record (at_rest c) {
      results = record c.results { bars = map (λ bar. set_bar d bar bar.target) c.results.bars };
    }

    unfoldable pub set_theme : Bool → Chart T N → Chart T N
    unfolding apply_glow_theme
    set_theme is_dark c = record c {
      floor_glow = apply_glow_theme c.floor_glow floor_glow_theme is_dark;
      beam = apply_glow_theme c.beam beam_theme is_dark;
      beam_peak = (if is_dark then beam_theme.dark else beam_theme.light).opacity;
    }

    -- What `setupBenchmarkChart` makes, with the textures of the glow and of the beam.
    unfoldable pub setup_benchmark_chart : N → T → T → Chart T N
    unfolding set_up make_glow_material
    setup_benchmark_chart nan glow_texture beam_texture = record {
      results = set_up d nan;
      floor_glow = make_glow_material (d.dec 1 0) glow_texture;
      beam = make_glow_material (d.dec 1 0) beam_texture;
      is_beam_visible = false;
      beam_x = d.dec 0 0;
      beam_peak = beam_theme.dark.opacity;
      last_beam_x = beam_start;
      rotation_x = d.dec 0 0;
      rotation_y = d.dec 0 0;
      position_y = d.dec 0 0;
    }
