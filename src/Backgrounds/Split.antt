-- ===== src/Backgrounds/Split.antt =====
-- The two halves of frontend/src/features/home/components/split-field.tsx.
use build_a_computer.Base.{◌≡◌, Bool, true, false, List, [], ◌∷◌, some, if◌then◌else◌}
use build_a_computer.Base.Real.{JsReal}
use build_a_computer.Canvas.{CanvasLayer, PositionedLayer, BoundLayer, positioned, normalized, bind}
use build_a_computer.Canvas
use build_a_computer.Canvas.Context.{Rect, Frame, Mark, Context}
use build_a_computer.Canvas.Drawing.{layer_marks}

module _ {N : Type 0} (d : JsReal N) where
  -- `const isStacked = width < 640`.
  abbrev pub is_stacked : N → Bool
  is_stacked width = d.lt width (d.dec 640 0)

  abbrev half : N → N
  half x = d.div x (d.dec 2 0)

  unfoldable pub left_viewport : (width height : N) → Rect N
  left_viewport width height =
      if is_stacked width
      then record { x = d.dec 0 0; y = d.dec 0 0; width = width; height = half height }
      else record { x = d.dec 0 0; y = d.dec 0 0; width = half width; height = height }

  unfoldable pub right_viewport : (width height : N) → Rect N
  right_viewport width height =
      if is_stacked width
      then record {
        x = d.dec 0 0;
        y = half height;
        width = width;
        height = d.sub height (half height);
      }
      else record {
        x = half width;
        y = d.dec 0 0;
        width = d.sub width (half width);
        height = height;
      }

  unfoldable pub compute_layers :
      {P U : Type 0}
      → CanvasLayer N P U
      → CanvasLayer N P U
      → (width height : N) → List (PositionedLayer N P U)
  compute_layers left right width height =
      record { layer = left; viewport = some (left_viewport width height) }
      ∷ record { layer = right; viewport = some (right_viewport width height) }
      ∷ []

  -- Two rectangles that make up one of the given size: one above the other where it is narrower than 640
  -- pixels, else side by side.
  pub data Tiles : Rect N → Rect N → (width height : N) → Type 0 where
    beside :
        (a b width height : N)
        → d.lt width (d.dec 640 0) ≡ false
        → d.add a b ≡ width
        → Tiles
            (record { x = d.dec 0 0; y = d.dec 0 0; width = a; height = height })
            (record { x = a; y = d.dec 0 0; width = b; height = height })
            width
            height
    above :
        (a b width height : N)
        → d.lt width (d.dec 640 0) ≡ true
        → d.add a b ≡ height
        → Tiles
            (record { x = d.dec 0 0; y = d.dec 0 0; width = width; height = a })
            (record { x = d.dec 0 0; y = a; width = width; height = b })
            width
            height

  module _ {P U : Type 0} (width height dpr elapsed : N) (reduce_motion is_dark : Bool) where
    abbrev bind_in : CanvasLayer N P U → Rect N → BoundLayer N P U
    bind_in layer v =
        bind (record { width = width; height = height }) dpr is_dark
          (record { layer = layer; viewport = some v })

    -- What one half leaves on the canvas.
    abbrev pub half_marks : CanvasLayer N P U → Rect N → Frame N → List (Mark N P)
    half_marks layer v f =
        layer_marks (d.dec 0 0) elapsed reduce_motion is_dark (bind_in layer v) v f

  module _ {P U : Type 0} (left right : CanvasLayer N P U) (width height dpr elapsed : N)
      (reduce_motion is_dark : Bool) where
    -- The layers that the driver binds in a container of this size.
    abbrev pub bound : List (BoundLayer N P U)
    bound =
        Canvas.resize (record { width = width; height = height }) dpr is_dark
          (normalized (positioned (compute_layers left right width height)))
