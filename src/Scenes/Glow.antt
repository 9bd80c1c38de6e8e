-- ===== src/Scenes/Glow.antt =====
-- The glows of frontend/src/features/home/utils/three.ts: their material, its theme, and the test for it.
-- `T` are the textures and `N` the numbers of the material.
use build_a_computer.Base.{ℕ, Bool, true, false, not, ◌&&◌, Option, none, some, if◌then◌else◌}

pub record GlowLook (N : Type 0) : Type 0 where
  pub color : ℕ
  pub opacity : N

pub record GlowTheme (N : Type 0) : Type 0 where
  pub dark : GlowLook N
  pub light : GlowLook N

pub data Blending : Type 0 where
  normal additive : Blending

-- A material: whether it is a MeshBasicMaterial, and its properties.
pub record GlowMaterial (T N : Type 0) : Type 0 where
  pub is_basic : Bool
  pub map_texture : Option T
  pub is_transparent : Bool
  pub depth_write : Bool
  pub tone_mapped : Bool
  pub color : ℕ
  pub opacity : N
  pub blending : Blending

abbrev has_map : {T : Type 0} → Option T → Bool
has_map none = false
has_map (some t) = true

module _ {T N : Type 0} where
  -- The colour, the opacity and the blending are those of three.js where none is given: white, 1, normal.
  unfoldable pub make_glow_material : N → T → GlowMaterial T N
  make_glow_material one map_texture = record {
    is_basic = true;
    map_texture = some map_texture;
    is_transparent = true;
    depth_write = false;
    tone_mapped = false;
    color = 0xffffff;
    opacity = one;
    blending = normal;
  }

  unfoldable pub apply_glow_theme : GlowMaterial T N → GlowTheme N → Bool → GlowMaterial T N
  apply_glow_theme material theme is_dark =
      let look = if is_dark then theme.dark else theme.light in
      record material {
        color = look.color;
        opacity = look.opacity;
        blending = if is_dark then additive else normal;
      }

  -- `fitOrthoCamera` passes over the meshes with such a material.
  unfoldable pub is_glow : GlowMaterial T N → Bool
  is_glow m = m.is_basic && (has_map m.map_texture && not m.depth_write)
