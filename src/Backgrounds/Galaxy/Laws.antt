-- ===== src/Backgrounds/Galaxy/Laws.antt =====
-- The particles of the galaxy, and what a frame draws of them.
use build_a_computer.Base.{
  ℕ, zero, suc, ◌+◌, ◌≤◌, ◌<◌, ◌≡◌, refl, ap, ◌∙◌, inl, inr, Bool, true, filter, List, [], ◌∷◌,
  ◌++◌, length, All, Bool-cases, arith,
}
use build_a_computer.Base.Real.{JsReal}
use build_a_computer.Canvas.{LayerSize}
use build_a_computer.Panels.{ℤ, pos}
use build_a_computer.Backgrounds.{FieldMath, turns}
use build_a_computer.Backgrounds.Clamping.{clamp_lem}
use build_a_computer.Backgrounds.Galaxy.{
  Particle, GalaxyState, GalaxyOp, fill_style, fill_rect, round_cap, trail, disc, arm_count, fade,
  make_particle, particles_from, make_particles, particle_count, setup, draw_particle,
  draw_particles, draw,
}

-- How many trails are drawn.
pub trails : {N : Type 0} → List (GalaxyOp N) → ℕ
trails [] = 0
trails (trail c alpha line_width tail head ∷ ops) = suc (trails ops)
trails (_ ∷ ops) = trails ops

-- How many discs are drawn.
pub discs : {N : Type 0} → List (GalaxyOp N) → ℕ
discs [] = 0
discs (disc c alpha r p ∷ ops) = suc (discs ops)
discs (_ ∷ ops) = discs ops

-- What Math.random promises: a number from 0 up to but not with 1.
pub record IsRandom {N : Type 0} (d : JsReal N) (random : ℕ → N) : Type 0 where
  pub nonneg : (k : ℕ) → d.le (d.dec 0 0) (random k) ≡ true
  pub below_one : (k : ℕ) → d.lt (random k) (d.dec 1 0) ≡ true

-- The product of such a number and a whole number above 0 is again at least 0 and below that number, and
-- Math.floor gives for what lies between 0 and a whole number a whole number below it.
pub record IsScaling {N : Type 0} (d : JsReal N) (m : FieldMath N) : Type 0 where
  pub mul_nonneg :
      (x : N) (n : ℕ) → d.le (d.dec 0 0) x ≡ true → d.le (d.dec 0 0) (d.mul x (d.dec n 0)) ≡ true
  pub mul_below :
      (x : N) (n : ℕ)
      → d.le (d.dec 0 0) x ≡ true
      → d.lt x (d.dec 1 0) ≡ true
      → d.lt (d.mul x (d.dec (suc n) 0)) (d.dec (suc n) 0) ≡ true
  pub floor_below :
      (y : N) (n : ℕ)
      → d.le (d.dec 0 0) y ≡ true
      → d.lt y (d.dec n 0) ≡ true
      → (j : ℕ) × (m.floor y ≡ pos j) × (j < n)

-- One of the arms of the galaxy.
abbrev pub IsArm : ℤ → Type 0
IsArm z = (j : ℕ) × (z ≡ pos j) × (j < arm_count)

trails-append : {N : Type 0} (xs ys : List (GalaxyOp N)) → trails (xs ++ ys) ≡ trails xs + trails ys
unfolding trails
trails-append [] ys = omega arith
trails-append (trail c alpha line_width tail head ∷ xs) ys = omega (arith, trails-append xs ys)
trails-append (fill_style s ∷ xs) ys = trails-append xs ys
trails-append (fill_rect x y w h ∷ xs) ys = trails-append xs ys
trails-append (round_cap ∷ xs) ys = trails-append xs ys
trails-append (disc c alpha r p ∷ xs) ys = trails-append xs ys

discs-append : {N : Type 0} (xs ys : List (GalaxyOp N)) → discs (xs ++ ys) ≡ discs xs + discs ys
unfolding discs
discs-append [] ys = omega arith
discs-append (disc c alpha r p ∷ xs) ys = omega (arith, discs-append xs ys)
discs-append (fill_style s ∷ xs) ys = discs-append xs ys
discs-append (fill_rect x y w h ∷ xs) ys = discs-append xs ys
discs-append (round_cap ∷ xs) ys = discs-append xs ys
discs-append (trail c alpha line_width tail head ∷ xs) ys = discs-append xs ys

module _ {N : Type 0} (d : JsReal N) (m : FieldMath N) where
  trails-draw_particle :
      (s : GalaxyState N) (elapsed : N) (reduce_motion is_dark : Bool) (p : Particle N)
      → trails (draw_particle d m s elapsed reduce_motion is_dark p) ≡ 1
  unfolding trails draw_particle
  trails-draw_particle s elapsed r b p = elim (Bool-cases (d.lt (d.dec 7 1) p.brightness)) [
    | inl e ↦ rw e refl
    | inr e ↦ rw e refl
  ]

  trails-draw_particles :
      (s : GalaxyState N) (elapsed : N) (reduce_motion is_dark : Bool) (ps : List (Particle N))
      → trails (draw_particles d m s elapsed reduce_motion is_dark ps) ≡ length ps
  unfolding trails draw_particles
  trails-draw_particles s elapsed r b [] = refl
  trails-draw_particles s elapsed r b (p ∷ ps) = omega (
    arith,
    trails-append (draw_particle d m s elapsed r b p) (draw_particles d m s elapsed r b ps),
    trails-draw_particle s elapsed r b p,
    trails-draw_particles s elapsed r b ps,
  )

  -- The particles that are bright enough for a disc.
  abbrev pub bright : List (Particle N) → List (Particle N)
  bright = filter (λ p. d.lt (d.dec 7 1) p.brightness)

  discs-draw_particles :
      (s : GalaxyState N) (elapsed : N) (reduce_motion is_dark : Bool) (ps : List (Particle N))
      → discs (draw_particles d m s elapsed reduce_motion is_dark ps) ≡ length (bright ps)
  unfolding discs draw_particles draw_particle
  discs-draw_particles s elapsed r b [] = refl
  discs-draw_particles s elapsed r b (p ∷ ps) = elim (Bool-cases (d.lt (d.dec 7 1) p.brightness)) [
    | inl e ↦ rw e (ap suc (discs-draw_particles s elapsed r b ps))
    | inr e ↦ rw e (discs-draw_particles s elapsed r b ps)
  ]

  particles_from_lem :
      (random : ℕ → N)
      → ((k : ℕ) → IsArm (m.floor (d.mul (random k) (d.dec arm_count 0))))
      → (core_count : ℤ) (i count : ℕ) (max_radius : N) (k : ℕ)
      → All
          (λ (p : Particle N). IsArm p.arm_index)
          (particles_from d m random core_count i count max_radius k)
        × (length (particles_from d m random core_count i count max_radius k) ≡ count)
  unfolding particles_from make_particle
  particles_from_lem random arms core_count i zero max_radius k = (tt, refl)
  particles_from_lem random arms core_count i (suc count) max_radius k =
      let (rest, size) =
        particles_from_lem random arms core_count (suc i) count max_radius (k + 9) in
      ((arms (k + 1), rest), ap suc size)

  floor-IsArm :
      (random : ℕ → N)
      → IsRandom d random
      → IsScaling d m
      → (k : ℕ) → IsArm (m.floor (d.mul (random k) (d.dec arm_count 0)))
  floor-IsArm random h laws k =
      laws.floor_below _ arm_count (laws.mul_nonneg (random k) arm_count (h.nonneg k))
        (laws.mul_below (random k) 3 (h.nonneg k) (h.below_one k))

  -- Where Math.random gives numbers from 0 up to but not with 1, and multiplication by a whole number and
  -- Math.floor keep their bounds: a setup makes from 250 to 1600 particles, each on one of the four arms,
  -- whatever the size of the layer; and a frame at any later time fills the whole layer with the translucent
  -- background of the theme before all else, then draws one trail for each particle, and as many discs as
  -- there are particles that are brighter than 0.7.
  pub setup-draw :
      (random : ℕ → N)
      → IsRandom d random
      → IsScaling d m
      → (size : LayerSize N) (was_dark : Bool) (k : ℕ) (elapsed : N) (reduce_motion is_dark : Bool)
      → let s = (setup d m random size was_dark k).0 in
        (250 ≤ length s.particles)
        × (length s.particles ≤ 1600)
        × All (λ (p : Particle N). IsArm p.arm_index) s.particles
        × (ops : List (GalaxyOp N)) × (draw d m s size elapsed reduce_motion is_dark
            ≡ fill_style (fade is_dark)
              ∷ fill_rect (d.dec 0 0) (d.dec 0 0) size.width size.height
              ∷ ops)
        × (trails ops ≡ length s.particles)
        × (discs ops ≡ length (bright s.particles))
  unfolding setup make_particles draw trails discs
  setup-draw random h laws size was_dark k elapsed r b =
      let s = (setup d m random size was_dark k).0 in
      let (n, e, low, high) =
        clamp_lem 250 1600 (m.round (d.div (d.mul size.width size.height) (d.dec 2600 0)))
          (omega arith) in
      let (armed, count) =
        particles_from_lem random (floor-IsArm random h laws) _ 0
          (turns (particle_count d m random size)) _ k in
      let many = count ∙ ap turns e in
      (
        omega (arith, many, low),
        omega (arith, many, high),
        armed,
        round_cap ∷ draw_particles d m s elapsed r b s.particles,
        refl,
        trails-draw_particles s elapsed r b s.particles,
        discs-draw_particles s elapsed r b s.particles,
      )
