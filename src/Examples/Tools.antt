-- ===== src/Examples/Tools.antt =====
-- A generator, a drag and a visit.
use build_a_computer.Base.{◌≡◌, ◌≢◌, refl, ◌↔◌, some, [], ◌∷◌, In, arith}
use build_a_computer.Base.Strings.{JsString, codes}
use build_a_computer.Random
use build_a_computer.Panels
use build_a_computer.Random.{word, mix, draws}
use build_a_computer.Panels.{ℤ, pos, negsuc, Panels, Drag, start_resize}
use build_a_computer.Panels.Laws.{moves, Resized, drag_lem}
use build_a_computer.BackButton.{Tracker, loaded, tracked, back, push, handle_press}
use build_a_computer.BackButton.Laws.{handle_press_iff}

draws_11 : draws 3 11 ≡ 2197249643 ∷ 2276102492 ∷ 2611849345 ∷ []
unfolding draws Random.draw Random.advance mix
draws_11 = refl

abbrev panels : Panels
panels = (codes "filters", pos 300) ∷ (codes "list", pos 700) ∷ []

abbrev drag : Drag
drag = record {
  handle_index = 0;
  start_pos = pos 300;
  start_before_size = pos 300;
  total = pos 1000;
}

dragged : start_resize 0 (pos 300) panels ≡ some drag
unfolding start_resize Panels.◌+ℤ◌
dragged = refl

-- The pointer leaves the window to the left and comes back.
drag_lem_example :
    Resized 0 1000
      (codes "filters")
      (codes "list")
      panels
      (moves drag (negsuc 20 ∷ pos 450 ∷ []) panels)
drag_lem_example =
    drag_lem 0 (pos 300) panels (codes "filters") (codes "list") 300 700 drag (negsuc 20)
      (pos 450 ∷ []) refl refl (omega arith) dragged

abbrev visited : Tracker
visited = tracked (codes "/games" ∷ codes "/users" ∷ codes "/games" ∷ []) loaded

handle_press_iff_example :
    ((handle_press (codes "/") visited ≡ back)
      ↔ ((q : JsString) × In q (codes "/users" ∷ codes "/games" ∷ []) × (q ≢ codes "/games")))
    × ((handle_press (codes "/") visited ≡ push (codes "/"))
        ↔ ((q : JsString) → In q (codes "/users" ∷ codes "/games" ∷ []) → q ≡ codes "/games"))
handle_press_iff_example =
    handle_press_iff (codes "/") (codes "/games") (codes "/users" ∷ codes "/games" ∷ [])
