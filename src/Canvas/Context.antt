-- ===== src/Canvas/Context.antt =====
-- A drawing context of the canvas API, as far as the driver uses it: the stack of `save`, the
-- translations and the clips in force, and what was painted under them.
use build_a_computer.Base.{List, [], ◌∷◌, ◌++◌}

pub record Rect (N : Type 0) : Type 0 where
  pub x : N
  pub y : N
  pub width : N
  pub height : N

-- The operations; `paint` is any other drawing, `clip` is `beginPath`, `rect` and `clip`.
pub data Op (N P : Type 0) : Type 0 where
  save restore : Op N P
  clip : Rect N → Op N P
  translate : (x y : N) → Op N P
  clear : Rect N → Op N P
  paint : P → Op N P

-- The translations since `setTransform`, and the clips with the translations they were made under.
pub record Frame (N : Type 0) : Type 0 where
  pub offsets : List (N × N)
  pub clips : List (List (N × N) × Rect N)

pub data Mark (N P : Type 0) : Type 0 where
  cleared : Frame N → Rect N → Mark N P
  painted : Frame N → P → Mark N P

pub record Context (N P : Type 0) : Type 0 where
  pub stack : List (Frame N)
  pub frame : Frame N
  pub marks : List (Mark N P)

module _ {N P : Type 0} where
  -- `restore` of an empty stack does nothing.
  abbrev pub pop : List (Frame N) → Context N P → Context N P
  pop [] c = c
  pop (f ∷ stack) c = record c { stack = stack; frame = f }

  unfoldable pub perform : Op N P → Context N P → Context N P
  perform save c = record c { stack = c.frame ∷ c.stack }
  perform restore c = pop c.stack c
  perform (clip r) c = record c {
    frame = record c.frame { clips = c.frame.clips ++ (c.frame.offsets, r) ∷ [] };
  }
  perform (translate x y) c = record c {
    frame = record c.frame { offsets = c.frame.offsets ++ (x, y) ∷ [] };
  }
  perform (clear r) c = record c { marks = c.marks ++ cleared c.frame r ∷ [] }
  perform (paint p) c = record c { marks = c.marks ++ painted c.frame p ∷ [] }

  unfoldable pub run : List (Op N P) → Context N P → Context N P
  unfolding perform
  run [] c = c
  run (o ∷ ops) c = run ops (perform o c)
