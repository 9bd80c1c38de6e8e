-- ===== src/Scenes/Chart/Sweeping.antt =====
-- The chart while it is animated.
use build_a_computer.Base.{Bool}
use build_a_computer.Base.Real.{JsReal}
use build_a_computer.Scenes.Frames.{Tilt}
use build_a_computer.Scenes.Chart.{JsMath, Chart}
use build_a_computer.Scenes.Chart.Animation.{update, pose, fit, set_theme}

module _ {T N : Type 0} (d : JsReal N) (m : JsMath N) (nan : N) where
  -- The calls that the effect makes of the controller.
  pub data Step : Chart T N → Chart T N → Type 0 where
    updated : (c : Chart T N) (t dt : N) (tilt : Tilt N) → Step c (update d m nan t dt tilt c)
    posed : (c : Chart T N) → Step c (pose d c)
    fitted : (c : Chart T N) → Step c (fit d c)
    themed : (c : Chart T N) (is_dark : Bool) → Step c (set_theme d is_dark c)

  pub data Reach (r : Chart T N) : Chart T N → Type 0 where
    here : Reach r r
    next : {b c : Chart T N} → Reach r b → Step b c → Reach r c
