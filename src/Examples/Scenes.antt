-- ===== src/Examples/Scenes.antt =====
-- A scene that is shown, with the page hidden for a while, and one whose meshes share their material.
use build_a_computer.Base.{
  ◌+◌, ◌-◌, ◌*◌, ◌/◌, ltb, if◌then◌else◌, ℕ, ◌≡◌, ◌↔◌, refl, true, false, List, [], ◌∷◌, All, In,
}
use build_a_computer.Scenes.Frames.{
  Effect, dispose, dispose_scene, loop, call, request, cancel, handle_visibility, resize,
  start_loop, render_static, mount, cleanup, visibility_changed, Reach, here, next, reveal, fire,
  wait, retheme, handle_theme,
}
use build_a_computer.Scenes.Frames.Scheduling.{control, IsSingle, Reach-IsSingle}
use build_a_computer.Scenes.Frames.Timing.{IsTimely, Reach-called}
use build_a_computer.Scenes.Frames.Showing.{IsCurrent, Reach-IsCurrent}
use build_a_computer.Scenes.Frames.Removal.{cleanup-calls}
use build_a_computer.Scenes.Disposal.{
  Object, mesh, line, other_object, one, many, texture_value, other_value, Material, Resource,
}
use build_a_computer.Scenes.Disposal
use build_a_computer.Scenes.Disposal.Distinct.{IsDistinct}
use build_a_computer.Scenes.Disposal.Resources.{resources}
use build_a_computer.Scenes.Disposal.Laws.{dispose_scene_lem}
use build_a_computer.Scenes.Chart.{JsMath, Chart}
use build_a_computer.Scenes.Chart.Animation.{sweep, setup_benchmark_chart}
use build_a_computer.Scenes.Chart.Sweeping
use build_a_computer.Scenes.PcModel.{Model, pose, update, setup_pc_model}
use build_a_computer.Scenes.PcModel
use build_a_computer.Scenes.PcModel.Laws.{IsRigid, Reach-IsRigid}
use build_a_computer.Examples.Numbers.{thousandths, thousandths-IsArithmetic}

-- Mounted while the page is hidden; then the page is shown.
abbrev start : Effect ℕ
start = mount thousandths false true true 300 200 5000

abbrev shown : Effect ℕ
shown = visibility_changed thousandths false false start

-- Time passes, and the browser gives a frame.
abbrev later : Effect ℕ
later = record shown { time = 21000 }

abbrev drawn : Effect ℕ
drawn = loop thousandths 21000 (record later { pending = [] })

drawn-Reach : Reach thousandths false start drawn
unfolding mount resize start_loop request call handle_visibility cancel loop
drawn-Reach =
    next (next (next here (reveal start refl)) (wait shown 21000 refl))
      (fire later [] [] 2 refl refl)

Reach-IsSingle_example : IsSingle false (control drawn)
Reach-IsSingle_example = Reach-IsSingle thousandths false true true 300 200 5000 drawn-Reach

Reach-called_example : All (IsTimely thousandths false) drawn.calls
Reach-called_example =
    Reach-called thousandths thousandths-IsArithmetic false true true 300 200 5000 drawn-Reach

cleanup-calls_example : (cleanup drawn).calls ≡ dispose ∷ dispose_scene ∷ drawn.calls
cleanup-calls_example = cleanup-calls thousandths false true true 300 200 5000 drawn-Reach here

-- With reduced motion, the page turns light.
abbrev still : Effect ℕ
still = mount thousandths true false true 300 200 5000

abbrev light : Effect ℕ
light = handle_theme thousandths true (record still { is_dark = false })

light-Reach : Reach thousandths true still light
unfolding mount resize start_loop call render_static
light-Reach = next here (retheme still false refl)

Reach-IsCurrent_example : IsCurrent true light
Reach-IsCurrent_example = Reach-IsCurrent thousandths true false true 300 200 5000 light-Reach

abbrev glow : Material
glow = record { id = 4; values = other_value ∷ texture_value 9 ∷ [] }

abbrev objects : List Object
objects =
    mesh 1 (one glow)
    ∷ other_object
    ∷ line 1 (many (glow ∷ record { id = 5; values = texture_value 9 ∷ [] } ∷ []))
    ∷ []

dispose_scene_lem_example :
    IsDistinct (Disposal.dispose_scene objects)
    × ((x : Resource)
        → In x (Disposal.dispose_scene objects)
          ↔ ((o : Object) × In o objects × In x (resources o)))
dispose_scene_lem_example = dispose_scene_lem objects

-- The functions of the chart on thousandths: the sine is 0, and a bar eases halfway.
abbrev functions : JsMath ℕ
functions = record {
  pi = 3142;
  sin = λ x. 0;
  cos = λ x. 1000;
  exp = λ x. 500;
  pow = λ x y. x;
  clamp = λ x low high. if ltb high x then high else x;
  lerp = λ from to t. from + t * (to - from) / 1000;
}

abbrev chart : Chart (Unit {0}) ℕ
chart = setup_benchmark_chart thousandths 0 tt tt

abbrev swept : Chart (Unit {0}) ℕ
swept = sweep thousandths functions 0 4000 16 chart

abbrev computer : Model (Unit {0}) ℕ
computer = setup_pc_model thousandths tt tt

Reach-IsRigid_example :
    IsRigid thousandths
      (update thousandths functions 900 16 (record { x = 0; y = 0 }) (pose thousandths computer))
Reach-IsRigid_example = Reach-IsRigid thousandths functions tt tt (
    PcModel.Laws.next (PcModel.Laws.next PcModel.Laws.here (PcModel.Laws.posed computer))
      (PcModel.Laws.updated (pose thousandths computer) 900 16 (record { x = 0; y = 0 })))
