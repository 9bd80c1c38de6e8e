-- ===== src/Canvas.antt =====
-- The driver of the animated backgrounds: frontend/src/components/canvas-layer-driver.tsx. Its layers
-- share one canvas; Canvas/Context is the drawing context, and Canvas/Scheduler the animation loop.
pub mod Context
pub mod Drawing
pub mod Scheduler
pub mod Scheduling
pub mod Leaking
use build_a_computer.Base.{
  Bool, true, false, not, Option, none, some, List, [], ◌∷◌, ◌++◌, if◌then◌else◌, map,
}
use build_a_computer.Canvas.Context.{Rect, Op, save, restore, clip, translate, clear}

pub record LayerSize (N : Type 0) : Type 0 where
  pub width : N
  pub height : N

-- A layer is its `setup` and its `draw`, which calls the operations of the context; `P` is what it
-- paints with, and `U` the states of the layers, whose types the driver forgets.
pub record CanvasLayer (N P U : Type 0) : Type 0 where
  pub setup : LayerSize N → (dpr : N) → (is_dark : Bool) → U
  pub draw : U → LayerSize N → (elapsed : N) → (reduce_motion is_dark : Bool) → List (Op N P)
  pub paints_own_base : Bool

pub record PositionedLayer (N P U : Type 0) : Type 0 where
  pub layer : CanvasLayer N P U
  pub viewport : Option (Rect N)

-- The layers that the driver is given, with a viewport each or with none.
pub data Layers (N P U : Type 0) : Type 0 where
  flat : List (CanvasLayer N P U) → Layers N P U
  positioned : List (PositionedLayer N P U) → Layers N P U

pub record BoundLayer (N P U : Type 0) : Type 0 where
  pub state : U
  pub layer : CanvasLayer N P U
  pub viewport : Option (Rect N)
  pub effective_size : LayerSize N

-- The size that a layer sees: that of its viewport, or of the canvas.
abbrev pub size_of : {N : Type 0} → Option (Rect N) → LayerSize N → LayerSize N
size_of none size = size
size_of (some v) size = record { width = v.width; height = v.height }

module _ {N P U : Type 0} where
  -- `isPositionedLayerArray(layers) ? layers : layers.map((layer) => ({ layer }))`.
  abbrev pub normalized : Layers N P U → List (PositionedLayer N P U)
  normalized (flat layers) = map (λ l. record { layer = l; viewport = none }) layers
  normalized (positioned layers) = layers

  abbrev pub bind : LayerSize N → N → Bool → PositionedLayer N P U → BoundLayer N P U
  bind size dpr is_dark p = record {
    state = p.layer.setup (size_of p.viewport size) dpr is_dark;
    layer = p.layer;
    viewport = p.viewport;
    effective_size = size_of p.viewport size;
  }

  -- The layers that `resize` binds to a size of the canvas.
  unfoldable pub resize :
      LayerSize N → N → Bool → List (PositionedLayer N P U) → List (BoundLayer N P U)
  resize size dpr is_dark layers = map (bind size dpr is_dark) layers

  module _ (zero : N) (elapsed : N) (reduce_motion is_dark : Bool) where
    abbrev pub painting : BoundLayer N P U → List (Op N P)
    painting b = b.layer.draw b.state b.effective_size elapsed reduce_motion is_dark

    abbrev pub base : BoundLayer N P U → List (Op N P)
    base b =
        if not b.layer.paints_own_base
        then clear (record {
          x = zero;
          y = zero;
          width = b.effective_size.width;
          height = b.effective_size.height;
        })
          ∷ []
        else []

    -- The turn of one layer in the loop of `drawFrame`.
    abbrev pub draw_layer : BoundLayer N P U → Option (Rect N) → List (Op N P)
    draw_layer b none = painting b
    draw_layer b (some v) =
        save ∷ clip v ∷ translate v.x v.y ∷ ((base b ++ painting b) ++ (restore ∷ []))

    unfoldable pub draw_frame : List (BoundLayer N P U) → List (Op N P)
    draw_frame [] = []
    draw_frame (b ∷ bound) = draw_layer b b.viewport ++ draw_frame bound
