-- ===== src/Backgrounds/Motes.antt =====
-- The motes of frontend/src/components/mote-field.tsx. The k-th call of Math.random is `random k`, and a
-- function that calls it says which call is next.
pub mod Laws
use build_a_computer.Base.{
  ℕ, zero, suc, ◌+◌, ◌-◌, Bool, true, false, Option, none, some, List, [], ◌∷◌, ◌++◌, if◌then◌else◌,
  map, find?, not,
}
use build_a_computer.Base.Real.{JsReal}
use build_a_computer.Canvas.{LayerSize}
use build_a_computer.Panels.{ℤ, pos, min, max, ◌+ℤ◌}
use build_a_computer.Backgrounds.{FieldMath, at_index, turns}

infixl 5 ◌>>=◌
abbrev pub ◌>>=◌ {ℓ κ} : {A : Type ℓ} {B : Type κ} → Option A → (A → Option B) → Option B
none >>= f = none
some a >>= f = f a

pub data Hue : Type 0 where
  gold silver : Hue

pub data Theme : Type 0 where
  dark light : Theme

pub record Colour : Type 0 where
  pub r : ℕ
  pub g : ℕ
  pub b : ℕ

unfoldable pub palette_for : Theme → Hue → Colour
palette_for dark gold = record { r = 212; g = 175; b = 110 }
palette_for dark silver = record { r = 206; g = 212; b = 222 }
palette_for light gold = record { r = 138; g = 102; b = 36 }
palette_for light silver = record { r = 70; g = 78; b = 94 }

abbrev pub size_buckets : ℕ
size_buckets = 6

pub record Mote (N : Type 0) : Type 0 where
  pub angle : N
  pub radius : N
  pub base_radius : N
  pub speed : N
  pub drift : N
  pub drift_phase : N
  pub size : N
  pub hue : Hue
  pub opacity : N
  pub twinkle_phase : N
  pub twinkle_speed : N
  pub center_x_deviation : N
  pub center_y_deviation : N
  pub sprite_index : ℤ

-- What is drawn on the canvas of a sprite: the scale, and two discs, the first of which fades to its edge.
pub data SpriteOp (N : Type 0) : Type 0 where
  scale : N → SpriteOp N
  fading_disc solid_disc : Colour → (x y radius : N) → SpriteOp N

-- `dim` is the side of the canvas.
pub record Sprite (N : Type 0) : Type 0 where
  pub dim : N
  pub ops : List (SpriteOp N)
  pub glow_radius : N

pub record Sheets (N : Type 0) : Type 0 where
  pub dark_sprites : List (Sprite N)
  pub light_sprites : List (Sprite N)

pub record MoteState (N : Type 0) : Type 0 where
  pub motes : List (Mote N)
  pub sheets : Sheets N
  pub center_x : N
  pub center_y : N
  pub t : N

-- `ctx.globalAlpha = a` and `ctx.drawImage`.
pub data Paint (N : Type 0) : Type 0 where
  alpha : N → Paint N
  image : Sprite N → (x y width height : N) → Paint N

-- `spriteCache`, a Map in the order of insertion.
abbrev pub SpriteCache : Type 0 → Type 0
SpriteCache N = List (N × Sheets N)

-- The sheets that are found under the resolution, or else the fresh ones, which are kept.
abbrev pub found :
    {N : Type 0} → Option (N × Sheets N) → SpriteCache N → Sheets N → N → Sheets N × SpriteCache N
found none cache fresh dpr = (fresh, cache ++ ((dpr, fresh) ∷ []))
found (some (k, sheets)) cache fresh dpr = (sheets, cache)

module _ {N : Type 0} (d : JsReal N) (m : FieldMath N) where
  abbrev min_size : N
  min_size = d.dec 6 1

  abbrev max_size : N
  max_size = d.dec 24 1

  unfoldable pub bucket_size : N → N
  bucket_size t = d.add min_size (d.mul (d.sub max_size min_size) t)

  -- The operations on the context of the sprite, if there is one.
  abbrev sprite_ops : Bool → Colour → (dim size glow_radius dpr : N) → List (SpriteOp N)
  sprite_ops has_context c dim size glow_radius dpr =
      let centre = d.div dim (d.mul (d.dec 2 0) dpr) in
      if has_context
      then scale dpr
        ∷ fading_disc c centre centre glow_radius
        ∷ solid_disc c centre centre (d.mul size (d.dec 5 1))
        ∷ []
      else []

  unfoldable pub make_sprite : Bool → Theme → Hue → (size dpr : N) → Sprite N
  make_sprite has_context theme hue size dpr =
      let glow_radius = d.mul size (d.dec 5 0) in
      let dim = m.ceil (d.mul (d.mul (d.add glow_radius (d.dec 1 0)) (d.dec 2 0)) dpr) in
      record {
        dim = dim;
        ops = sprite_ops has_context (palette_for theme hue) dim size glow_radius dpr;
        glow_radius = glow_radius;
      }

  -- The inner loop of `buildSpriteSheet`, from bucket i on.
  unfoldable pub hue_sprites : Bool → Theme → Hue → N → (i n : ℕ) → List (Sprite N)
  hue_sprites has_context theme hue dpr i zero = []
  hue_sprites has_context theme hue dpr i (suc n) =
      make_sprite has_context theme hue
        (bucket_size (d.div (d.dec i 0) (d.sub (d.dec size_buckets 0) (d.dec 1 0)))) dpr
      ∷ hue_sprites has_context theme hue dpr (suc i) n

  unfoldable pub build_sprite_sheet : Bool → Theme → N → List (Sprite N)
  build_sprite_sheet has_context theme dpr =
      hue_sprites has_context theme gold dpr 0 size_buckets
      ++ hue_sprites has_context theme silver dpr 0 size_buckets

  unfoldable pub sprite_index_for : Hue → N → ℤ
  sprite_index_for hue size =
      let t = d.div (d.sub size min_size) (d.sub max_size min_size) in
      let steps = d.sub (d.dec size_buckets 0) (d.dec 1 0) in
      let bucket = max (pos 0) (min (pos (size_buckets - 1)) (m.round (d.mul t steps))) in
      first_of hue +ℤ bucket
    where
      first_of : Hue → ℤ
      first_of gold = pos 0
      first_of silver = pos size_buckets

  abbrev pub mote_count : LayerSize N → ℤ
  mote_count size =
      let density = d.div (d.mul size.width size.height) (d.dec 2200 0) in
      max (pos 60) (min (pos 420) (m.round density))

  unfoldable pub get_sprite_sheets_for : Bool → SpriteCache N → N → Sheets N × SpriteCache N
  get_sprite_sheets_for has_context cache dpr =
      let fresh : Sheets N = record {
        dark_sprites = build_sprite_sheet has_context dark dpr;
        light_sprites = build_sprite_sheet has_context light dpr;
      } in
      found (find? (λ entry. m.same entry.0 dpr) cache) cache fresh dpr

  module _ (random : ℕ → N) where
    -- `Math.random() * Math.PI * 2`.
    abbrev turn_of : ℕ → N
    turn_of k = d.mul (d.mul (random k) m.pi) (d.dec 2 0)

    -- The mote that is made with the calls of Math.random from k to k + 12.
    unfoldable pub make_mote : (max_radius : N) → ℕ → Mote N
    make_mote max_radius k =
        let base_radius = d.mul (m.pow (random k) (d.dec 6 1)) max_radius in
        let hue = if d.lt (random (k + 1)) (d.dec 55 2) then gold else silver in
        let size = d.add (d.mul (random (k + 2)) (d.sub max_size min_size)) min_size in
        let pace = d.add (d.mul (random (k + 4)) (d.dec 6 4)) (d.dec 15 5) in
        let sign =
          if d.lt (random (k + 5)) (d.dec 5 1) then d.dec 1 0 else d.sub (d.dec 0 0) (d.dec 1 0) in
        record {
          angle = turn_of (k + 3);
          radius = base_radius;
          base_radius = base_radius;
          speed = d.mul pace sign;
          drift = d.add (d.mul (random (k + 6)) (d.dec 8 3)) (d.dec 2 3);
          drift_phase = turn_of (k + 7);
          size = size;
          hue = hue;
          opacity = d.add (d.mul (random (k + 8)) (d.dec 5 1)) (d.dec 25 2);
          twinkle_phase = turn_of (k + 9);
          twinkle_speed = d.add (d.mul (random (k + 10)) (d.dec 2 3)) (d.dec 8 4);
          center_x_deviation = d.add (d.dec 1 0) (random (k + 11));
          center_y_deviation = d.add (d.dec 62 2) (random (k + 12));
          sprite_index = sprite_index_for hue size;
        }

    unfoldable pub make_motes : (count : ℕ) (max_radius : N) → ℕ → List (Mote N)
    make_motes zero max_radius k = []
    make_motes (suc count) max_radius k =
        make_mote max_radius k ∷ make_motes count max_radius (k + 13)

    -- `setup` of the layer, and the cache that it leaves.
    unfoldable pub setup : Bool → SpriteCache N → LayerSize N → N → ℕ → MoteState N × SpriteCache N
    setup has_context cache size dpr k =
        let max_radius = d.mul (m.hypot size.width size.height) (d.dec 6 1) in
        let got = get_sprite_sheets_for has_context cache dpr in
        (
          record {
            motes = make_motes (turns (mote_count size)) max_radius k;
            sheets = got.0;
            center_x = d.div size.width (d.dec 2 0);
            center_y = d.div size.height (d.dec 2 0);
            t = d.dec 0 0;
          },
          got.1,
        )

  -- A mote after a frame.
  unfoldable pub advance_mote : Bool → N → Mote N → Mote N
  advance_mote reduce_motion t mote =
      let swing = m.sin (d.add (d.mul t mote.drift) mote.drift_phase) in
      if not reduce_motion
      then record mote {
        angle = d.add mote.angle mote.speed;
        radius = d.add mote.base_radius (d.mul swing (d.dec 40 0));
      }
      else mote

  unfoldable pub paint_mote : Bool → (center_x center_y t : N) → Mote N → Sprite N → List (Paint N)
  paint_mote reduce_motion center_x center_y t mote sprite =
      let x =
        d.add (d.add center_x mote.center_x_deviation) (d.mul (m.cos mote.angle) mote.radius) in
      let y =
        d.add (d.add center_y mote.center_y_deviation)
          (d.mul (d.mul (m.sin mote.angle) mote.radius) (d.dec 62 2)) in
      let wave = m.sin (d.add (d.mul t mote.twinkle_speed) mote.twinkle_phase) in
      let twinkle =
        if reduce_motion then d.dec 1 0 else d.add (d.dec 6 1) (d.mul (d.dec 4 1) wave) in
      let side = d.mul sprite.glow_radius (d.dec 2 0) in
      alpha (d.min (d.mul mote.opacity twinkle) (d.dec 1 0))
      ∷ image sprite (d.sub x sprite.glow_radius) (d.sub y sprite.glow_radius) side side
      ∷ []

  -- The loop over the motes; to read a sprite that is undefined would throw.
  unfoldable pub draw_motes :
      Bool
      → (center_x center_y t : N) → List (Sprite N)
      → List (Mote N)
      → Option (List (Mote N) × List (Paint N))
  draw_motes reduce_motion center_x center_y t sprites [] = some ([], [])
  draw_motes reduce_motion center_x center_y t sprites (mote ∷ motes) = do
    let moved = advance_mote reduce_motion t mote
    sprite ← at_index sprites moved.sprite_index
    rest ← draw_motes reduce_motion center_x center_y t sprites motes
    some (moved ∷ rest.0, paint_mote reduce_motion center_x center_y t moved sprite ++ rest.1)

  unfoldable pub draw : Bool → Bool → MoteState N → Option (MoteState N × List (Paint N))
  draw reduce_motion is_dark s = do
    let t = d.add s.t (d.dec 1 0)
    let sprites = if is_dark then s.sheets.dark_sprites else s.sheets.light_sprites
    drawn ← draw_motes reduce_motion s.center_x s.center_y t sprites s.motes
    some (record s { motes = drawn.0; t = t }, drawn.1 ++ (alpha (d.dec 1 0) ∷ []))
