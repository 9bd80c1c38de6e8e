-- ===== src/Scenes/PcModel.antt =====
-- The motion of the exploded computer of frontend/src/features/home/components/pc-model-scene.tsx: its parts,
-- the rotors of its fans, and the controller of the scene.
pub mod Laws
use build_a_computer.Base.{
  ℕ, zero, suc, ◌+◌, ◌%◌, Bool, true, false, List, [], ◌∷◌, if◌then◌else◌, map,
}
use build_a_computer.Base.Real.{JsReal}
use build_a_computer.Scenes.Frames.{Tilt}
use build_a_computer.Scenes.Glow.{GlowTheme, GlowMaterial, make_glow_material, apply_glow_theme}
use build_a_computer.Scenes.Chart.{JsMath}
use build_a_computer.Scenes.Chart.Animation.{ease_out_cubic}

pub record Vector3 (N : Type 0) : Type 0 where
  pub x : N
  pub y : N
  pub z : N

-- `position` is that of the part's object.
pub record Part (N : Type 0) : Type 0 where
  pub base : Vector3 N
  pub offset : Vector3 N
  pub position : Vector3 N

-- The model: its parts, the rotation.z of each rotor, and the place of the group.
pub record Model (T N : Type 0) : Type 0 where
  pub parts : List (Part N)
  pub rotors : List N
  pub halo : GlowMaterial T N
  pub floor_glow : GlowMaterial T N
  pub rotation_x : N
  pub rotation_y : N
  pub position_y : N

module _ {N : Type 0} (d : JsReal N) where
  abbrev neg : N → N
  neg x = d.sub (d.dec 0 0) x

  abbrev pub vector : N → N → N → Vector3 N
  vector x y z = record { x = x; y = y; z = z }

  -- `a.clone().add(b)` and `a.sub(b)`.
  abbrev plus : Vector3 N → Vector3 N → Vector3 N
  plus a b = vector (d.add a.x b.x) (d.add a.y b.y) (d.add a.z b.z)

  abbrev minus : Vector3 N → Vector3 N → Vector3 N
  minus a b = vector (d.sub a.x b.x) (d.sub a.y b.y) (d.sub a.z b.z)

  -- `position.copy(base).addScaledVector(offset, amount)`.
  abbrev pub placed : Part N → N → Vector3 N
  placed p amount =
      vector (d.add p.base.x (d.mul p.offset.x amount)) (d.add p.base.y (d.mul p.offset.y amount))
        (d.add p.base.z (d.mul p.offset.z amount))

  -- W, H and D.
  abbrev width : N
  width = d.dec 2 0

  abbrev height : N
  height = d.dec 3 0

  abbrev depth : N
  depth = d.dec 28 1

  abbrev half : N → N
  half x = d.div x (d.dec 2 0)

  abbrev pub origin : Vector3 N
  origin = vector (d.dec 0 0) (d.dec 0 0) (d.dec 0 0)

  abbrev part : Vector3 N → Vector3 N → Part N
  part base offset = record { base = base; offset = offset; position = origin }

  -- A fan of the front at this height, and one of the top at this depth.
  abbrev front_fan : N → Part N
  front_fan y =
      part (vector (d.dec 0 0) y (d.add (half depth) (d.dec 1 1)))
        (vector (d.dec 0 0) (d.dec 0 0) (d.dec 45 2))

  abbrev top_fan : N → Part N
  top_fan z =
      part (vector (d.dec 0 0) (d.add (half height) (d.dec 1 1)) z)
        (vector (d.dec 0 0) (d.dec 45 2) (d.dec 0 0))

  abbrev mobo_base : Vector3 N
  mobo_base = vector (d.sub (half width) (d.dec 15 2)) (d.dec 3 1) (neg (d.dec 15 2))

  abbrev mobo_offset : Vector3 N
  mobo_offset = vector (neg (d.dec 33 1)) (d.dec 1 1) (d.dec 0 0)

  abbrev drives_base : Vector3 N
  drives_base = vector (d.dec 3 1) (d.add (half (neg height)) (d.dec 2 1)) (d.dec 6 1)

  -- Two fans on the front, two on the top, the motherboard, the cooler, the graphics card, the drives.
  unfoldable pub parts_of : List (Part N)
  parts_of =
      let drives_place =
        vector (neg (d.dec 5 1)) (d.sub (half (neg height)) (d.dec 5 2))
          (d.add (half depth) (d.dec 95 2)) in
      front_fan (d.dec 7 1)
      ∷ front_fan (neg (d.dec 62 2))
      ∷ top_fan (neg (d.dec 65 2))
      ∷ top_fan (d.dec 65 2)
      ∷ part mobo_base mobo_offset
      ∷ part (plus mobo_base (vector (neg (d.dec 1 1)) (d.dec 45 2) (neg (d.dec 25 2))))
          (plus mobo_offset (vector (neg (d.dec 65 2)) (d.dec 15 2) (d.dec 0 0)))
      ∷ part (plus mobo_base (vector (neg (d.dec 25 2)) (neg (d.dec 6 1)) (neg (d.dec 1 1))))
          (plus mobo_offset (vector (neg (d.dec 1 0)) (neg (d.dec 6 1)) (d.dec 35 2)))
      ∷ part drives_base (minus drives_place drives_base)
      ∷ []

  -- The rotors of these four fans, of the cooler's, and of the three of the graphics card.
  abbrev rotors_of : List N
  rotors_of =
      let still = d.dec 0 0 in still ∷ still ∷ still ∷ still ∷ still ∷ still ∷ still ∷ still ∷ []

  abbrev pub fan_halo : GlowTheme N
  fan_halo = record {
    dark = record { color = 0x22d3ee; opacity = d.dec 55 2 };
    light = record { color = 0x0284c7; opacity = d.dec 35 2 };
  }

  abbrev pub floor_glow_theme : GlowTheme N
  floor_glow_theme = record {
    dark = record { color = 0x2563eb; opacity = d.dec 45 2 };
    light = record { color = 0x1d4ed8; opacity = d.dec 18 2 };
  }

  unfoldable pub explode_part : N → Part N → Part N
  explode_part amount p = record p { position = placed p amount }

  -- `rotors[i].rotation.z -= dt * (5 + (i % 3))`, from rotor i on.
  unfoldable pub spin : N → ℕ → List N → List N
  spin dt i [] = []
  spin dt i (z ∷ rotors) =
      d.sub z (d.mul dt (d.add (d.dec 5 0) (d.dec (i % 3) 0))) ∷ spin dt (suc i) rotors

  module _ {T : Type 0} where
    unfoldable pub apply_explode : N → Model T N → Model T N
    apply_explode amount c = record c { parts = map (explode_part amount) c.parts }

    abbrev at_rest : Model T N → Model T N
    at_rest c = record c { rotation_x = d.dec 0 0; rotation_y = d.dec 0 0; position_y = d.dec 0 0 }

    -- `fit`, but for the camera.
    unfoldable pub fit : Model T N → Model T N
    fit c = apply_explode (d.dec 105 2) (at_rest c)

    unfoldable pub pose : Model T N → Model T N
    pose c = apply_explode (d.dec 1 0) (at_rest c)

    unfoldable pub set_theme : Bool → Model T N → Model T N
    set_theme is_dark c = record c {
      halo = apply_glow_theme c.halo fan_halo is_dark;
      floor_glow = apply_glow_theme c.floor_glow floor_glow_theme is_dark;
    }

    -- What `setupPcModel` makes, with the textures of the rings and of the floor.
    unfoldable pub setup_pc_model : T → T → Model T N
    setup_pc_model ring_texture glow_texture = record {
      parts = parts_of;
      rotors = rotors_of;
      halo = make_glow_material (d.dec 1 0) ring_texture;
      floor_glow = make_glow_material (d.dec 1 0) glow_texture;
      rotation_x = d.dec 0 0;
      rotation_y = d.dec 0 0;
      position_y = d.dec 0 0;
    }

  module _ (m : JsMath N) where
    -- How far the parts are out at a time.
    unfoldable pub exploded_by : N → N
    exploded_by t =
        let since = d.sub t (d.dec 35 2) in
        let intro = m.clamp (d.div since (d.dec 22 1)) (d.dec 0 0) (d.dec 1 0) in
        let settled = d.max (d.sub since (d.dec 22 1)) (d.dec 0 0) in
        let breathe = d.mul (d.dec 25 3) (d.sub (d.dec 1 0) (m.cos (d.mul settled (d.dec 8 1)))) in
        d.add (ease_out_cubic d m intro) breathe

    unfoldable pub update : {T : Type 0} → (t dt : N) → Tilt N → Model T N → Model T N
    update t dt tilt c = record (apply_explode (exploded_by t) c) {
      rotation_y =
          d.add (d.mul (m.sin (d.mul t (d.dec 25 2))) (d.dec 1 1)) (d.mul tilt.x (d.dec 12 2));
      rotation_x = d.mul tilt.y (d.dec 5 2);
      position_y = d.mul (m.sin (d.mul t (d.dec 9 1))) (d.dec 6 2);
      rotors = spin dt 0 c.rotors;
    }
