-- ===== src/Examples/Canvas.antt =====
-- A driver with two layers, and its loop.
use build_a_computer.Base.{ℕ, ◌≡◌, refl, true, false, some, List, [], ◌∷◌, ◌++◌, All}
use build_a_computer.Canvas.{CanvasLayer, BoundLayer}
use build_a_computer.Canvas.{draw_frame}
use build_a_computer.Canvas.Context.{Rect, save, restore, paint, Context, run}
use build_a_computer.Canvas.Drawing.{
  nothing, drawn, nested, IsConfined, frame_marks, draw_frame-frame_marks,
}
use build_a_computer.Canvas.Scheduler.{
  Loop, mount, request, resize, visibility_changed, handle_visibility, Reach, here, next, hide,
  reveal,
}
use build_a_computer.Canvas.Scheduling.{IsExact, Reach-IsExact}
use build_a_computer.Canvas.Leaking.{removed, leaks}

abbrev half : ℕ → Rect ℕ
half x = record { x = x; y = 0; width = 50; height = 80 }

-- One layer paints its base, the other saves and restores around its dots.
abbrev pub motes : CanvasLayer ℕ ℕ (Unit {0})
motes = record {
  setup = λ _ _ _. tt;
  draw = λ _ _ _ _ _. save ∷ paint 7 ∷ restore ∷ [];
  paints_own_base = false;
}

abbrev pub galaxy : CanvasLayer ℕ ℕ (Unit {0})
galaxy = record { setup = λ _ _ _. tt; draw = λ _ _ _ _ _. paint 9 ∷ []; paints_own_base = true }

abbrev placed_at : ℕ → CanvasLayer ℕ ℕ (Unit {0}) → BoundLayer ℕ ℕ (Unit {0})
placed_at x layer = record {
  state = tt;
  layer = layer;
  viewport = some (half x);
  effective_size = record { width = 50; height = 80 };
}

abbrev bound : List (BoundLayer ℕ ℕ (Unit {0}))
bound = placed_at 0 motes ∷ placed_at 50 galaxy ∷ []

confined : All (IsConfined 0 16 false true) bound
confined = (
  record { region = half 0; placed = refl; balanced = nested (drawn 7 nothing) nothing },
  (record { region = half 50; placed = refl; balanced = drawn 9 nothing }, tt),
)

abbrev pub fresh : Context ℕ ℕ
fresh = record { stack = []; frame = record { offsets = []; clips = [] }; marks = [] }

draw_frame-frame_marks_example :
    run (draw_frame 0 16 false true bound) fresh
    ≡ record fresh { marks = [] ++ frame_marks 0 16 false true bound confined (fresh.frame) }
draw_frame-frame_marks_example = draw_frame-frame_marks 0 16 false true bound confined fresh

-- The document is hidden and shown again.
abbrev hidden : Loop
hidden = visibility_changed false true (mount false false)

shown_again : Reach false (mount false false) (visibility_changed false false hidden)
unfolding mount request resize handle_visibility
shown_again = next (next here (hide (mount false false) refl)) (reveal hidden refl)

Reach-IsExact_example : IsExact false (visibility_changed false false hidden)
Reach-IsExact_example = Reach-IsExact false shown_again

leaks_example :
    Reach false (mount false true) removed
    × ((s : Loop) × (Reach false removed s × ((s.is_listening ≡ false) × (s.frames ≡ 3))))
leaks_example = leaks 3
