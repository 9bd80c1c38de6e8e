-- ===== src/Backgrounds/Galaxy.antt =====
-- The galaxy of frontend/src/components/milky-way-field.tsx. The k-th call of Math.random is `random k`.
pub mod Laws
use build_a_computer.Base.{ℕ, zero, suc, ◌+◌, Bool, true, false, List, [], ◌∷◌, ◌++◌, if◌then◌else◌}
use build_a_computer.Base.Real.{JsReal}
use build_a_computer.Base.Strings.{JsString, codes}
use build_a_computer.Canvas.{LayerSize}
use build_a_computer.Panels.{ℤ, pos, negsuc, leb_ℤ, min, max}
use build_a_computer.Backgrounds.{FieldMath, turns}

pub record Particle (N : Type 0) : Type 0 where
  pub arm_index : ℤ
  pub base_radius : N
  pub base_angle : N
  pub angular_speed : N
  pub size : N
  pub brightness : N
  pub hue_mix : N
  pub wobble : N
  pub wobble_phase : N

pub record Rgb (N : Type 0) : Type 0 where
  pub r : N
  pub g : N
  pub b : N

pub record Point (N : Type 0) : Type 0 where
  pub x : N
  pub y : N

pub record GalaxyState (N : Type 0) : Type 0 where
  pub particles : List (Particle N)
  pub center_x : N
  pub center_y : N
  pub max_radius : N

-- `ctx.fillStyle = s`, `fillRect`, `ctx.lineCap = 'round'`, a line from the tail to the head whose colour fades
-- in to this alpha, and a disc.
pub data GalaxyOp (N : Type 0) : Type 0 where
  fill_style : JsString → GalaxyOp N
  fill_rect : (x y width height : N) → GalaxyOp N
  round_cap : GalaxyOp N
  trail : Rgb N → (alpha line_width : N) → (tail head : Point N) → GalaxyOp N
  disc : Rgb N → (alpha radius : N) → Point N → GalaxyOp N

abbrev pub arm_count : ℕ
arm_count = 4

abbrev pub background : Bool → JsString
background is_dark = if is_dark then codes "#05050a" else codes "#ededec"

abbrev pub fade : Bool → JsString
fade is_dark = if is_dark then codes "rgba(5, 5, 10, 0.16)" else codes "rgba(230, 239, 243, 0.16)"

module _ {N : Type 0} (d : JsReal N) where
  abbrev rgb : ℕ → ℕ → ℕ → Rgb N
  rgb r g b = record { r = d.dec r 0; g = d.dec g 0; b = d.dec b 0 }

  abbrev pub core_color : Bool → Rgb N
  core_color is_dark = if is_dark then rgb 255 244 222 else rgb 120 90 40

  abbrev pub arm_color : Bool → Rgb N
  arm_color is_dark = if is_dark then rgb 158 190 255 else rgb 50 70 120

  unfoldable pub lerp : N → N → N → N
  lerp a b t = d.add a (d.mul (d.sub b a) t)

  -- A whole number as one of the fractions.
  abbrev of_ℤ : ℤ → N
  of_ℤ (pos n) = d.dec n 0
  of_ℤ (negsuc n) = d.sub (d.dec 0 0) (d.dec (suc n) 0)

  module _ (m : FieldMath N) where
    module _ (random : ℕ → N) where
      -- A number from `low` on, with `range` above it.
      abbrev spread : ℕ → (range low : N) → N
      spread k range low = d.add (d.mul (random k) range) low

      -- The particle that is made with the calls of Math.random from k to k + 8.
      unfoldable pub make_particle : Bool → (max_radius : N) → ℕ → Particle N
      make_particle is_core max_radius k =
          let radius =
            if is_core
            then d.mul (d.mul (random k) max_radius) (d.dec 12 2)
            else d.mul max_radius (d.add (d.dec 1 1) (d.mul (d.dec 9 1) (m.sqrt (random k)))) in
          let arm_index = m.floor (d.mul (random (k + 1)) (d.dec arm_count 0)) in
          let arm_base =
            d.mul (d.mul (d.div (of_ℤ arm_index) (d.dec arm_count 0)) m.pi) (d.dec 2 0) in
          let scatter = d.mul (d.sub (random (k + 2)) (d.dec 5 1)) (d.dec 55 2) in
          let spiral_offset = d.div (m.log (d.add radius (d.dec 1 0))) (d.dec 28 2) in
          let reach = d.add (d.div radius (d.mul max_radius (d.dec 3 1))) (d.dec 1 0) in
          let speed_falloff = d.div (d.dec 1 0) (m.pow reach (d.dec 7 1)) in
          let direction =
            if d.lt (random (k + 3)) (d.dec 5 1)
            then d.dec 1 0
            else d.sub (d.dec 0 0) (d.dec 1 0) in
          let pace = if is_core then d.dec 16 1 else d.dec 1 0 in
          record {
            arm_index = arm_index;
            base_radius = radius;
            base_angle = d.add (d.add arm_base spiral_offset) scatter;
            angular_speed = d.mul (d.mul (d.mul direction speed_falloff) (d.dec 9 5)) pace;
            size =
                if is_core
                then spread (k + 4) (d.dec 14 1) (d.dec 8 1)
                else spread (k + 4) (d.dec 11 1) (d.dec 4 1);
            brightness =
                if is_core
                then spread (k + 5) (d.dec 4 1) (d.dec 6 1)
                else spread (k + 5) (d.dec 55 2) (d.dec 25 2);
            hue_mix =
                if is_core
                then d.mul (random (k + 6)) (d.dec 3 1)
                else spread (k + 6) (d.dec 7 1) (d.dec 3 1);
            wobble = spread (k + 7) (d.dec 6 0) (d.dec 2 0);
            wobble_phase = d.mul (d.mul (random (k + 8)) m.pi) (d.dec 2 0);
          }

      -- The loop of `makeParticles` from turn i on.
      unfoldable pub particles_from :
          (core_count : ℤ) (i count : ℕ) (max_radius : N) → ℕ → List (Particle N)
      particles_from core_count i zero max_radius k = []
      particles_from core_count i (suc count) max_radius k =
          make_particle (leb_ℤ (pos (suc i)) core_count) max_radius k
          ∷ particles_from core_count (suc i) count max_radius (k + 9)

      unfoldable pub make_particles : ℤ → (max_radius : N) → ℕ → List (Particle N)
      make_particles count max_radius k =
          particles_from (m.round (d.mul (of_ℤ count) (d.dec 12 2))) 0 (turns count) max_radius k

      abbrev pub particle_count : LayerSize N → ℤ
      particle_count size =
          let density = d.div (d.mul size.width size.height) (d.dec 2600 0) in
          max (pos 250) (min (pos 1600) (m.round density))

      -- `setup` of the layer: the state, and what it paints.
      unfoldable pub setup : LayerSize N → Bool → ℕ → GalaxyState N × List (GalaxyOp N)
      setup size is_dark k =
          let max_radius = d.mul (m.hypot size.width size.height) (d.dec 52 2) in
          (
            record {
              particles = make_particles (particle_count size) max_radius k;
              center_x = d.div size.width (d.dec 2 0);
              center_y = d.div size.height (d.dec 2 0);
              max_radius = max_radius;
            },
            fill_style (background is_dark)
                ∷ fill_rect (d.dec 0 0) (d.dec 0 0) size.width size.height
                ∷ [],
          )

    -- The place of a particle at an angle and a radius.
    abbrev point_at : GalaxyState N → (angle radius : N) → Point N
    point_at s angle radius = record {
      x = d.add s.center_x (d.mul (m.cos angle) radius);
      y = d.add s.center_y (d.mul (d.mul (m.sin angle) radius) (d.dec 55 2));
    }

    unfoldable pub draw_particle :
        GalaxyState N
        → (elapsed : N) → (reduce_motion is_dark : Bool) → Particle N
        → List (GalaxyOp N)
    draw_particle s elapsed reduce_motion is_dark p =
        let angle = d.add p.base_angle (d.mul p.angular_speed elapsed) in
        let sway = m.sin (d.add (d.mul elapsed (d.dec 25 5)) p.wobble_phase) in
        let radius = d.add p.base_radius (d.mul sway p.wobble) in
        let head = point_at s angle radius in
        let tail = point_at s (d.sub angle (d.mul p.angular_speed (d.dec 90 0))) radius in
        let core = core_color is_dark in
        let arm = arm_color is_dark in
        let c : Rgb N = record {
          r = lerp core.r arm.r p.hue_mix;
          g = lerp core.g arm.g p.hue_mix;
          b = lerp core.b arm.b p.hue_mix;
        } in
        let wave = m.sin (d.add (d.mul elapsed (d.dec 2 3)) (d.mul p.wobble_phase (d.dec 3 0))) in
        let twinkle =
          if reduce_motion then d.dec 1 0 else d.add (d.dec 75 2) (d.mul (d.dec 25 2) wave) in
        let alpha = d.mul p.brightness twinkle in
        let bright =
          disc c (d.min (d.mul alpha (d.dec 13 1)) (d.dec 1 0)) (d.mul p.size (d.dec 6 1)) head in
        trail c alpha p.size tail head ∷ (if d.lt (d.dec 7 1) p.brightness then bright ∷ [] else [])

    unfoldable pub draw_particles :
        GalaxyState N
        → (elapsed : N) → (reduce_motion is_dark : Bool) → List (Particle N)
        → List (GalaxyOp N)
    draw_particles s elapsed reduce_motion is_dark [] = []
    draw_particles s elapsed reduce_motion is_dark (p ∷ ps) =
        draw_particle s elapsed reduce_motion is_dark p
        ++ draw_particles s elapsed reduce_motion is_dark ps

    unfoldable pub draw :
        GalaxyState N
        → LayerSize N
        → (elapsed : N) → (reduce_motion is_dark : Bool) → List (GalaxyOp N)
    draw s size elapsed reduce_motion is_dark =
        fill_style (fade is_dark)
        ∷ fill_rect (d.dec 0 0) (d.dec 0 0) size.width size.height
        ∷ round_cap
        ∷ draw_particles s elapsed reduce_motion is_dark s.particles
