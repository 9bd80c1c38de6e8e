-- ===== src/Panels.antt =====
-- The panels that a pointer resizes:
-- frontend/src/features/benchmark/components/layout/resizable-panel-group.tsx. Sizes and coordinates are
-- whole numbers of pixels; the sizes are those along the orientation, which `offsetWidth` or
-- `offsetHeight` reads and the style sets.
pub mod Laws
use build_a_computer.Base.{
  ℕ, zero, suc, ◌+◌, ◌-◌, Bool, true, false, Option, none, some, List, [], ◌∷◌, leb, ltb, get_elem?,
  map, filter, not, if◌then◌else◌,
}
use build_a_computer.Base.Strings.{JsString, str_eq}

-- The whole numbers, those below 0 as `negsuc n` for - (n + 1).
pub data ℤ : Type 0 where
  pos negsuc : ℕ → ℤ

-- a - b.
abbrev pub minus : ℕ → ℕ → ℤ
minus a b = if leb b a then pos (a - b) else negsuc (b - a - 1)

infixl 60 ◌+ℤ◌
unfoldable pub ◌+ℤ◌ : ℤ → ℤ → ℤ
pos a +ℤ pos b = pos (a + b)
pos a +ℤ negsuc b = minus a (suc b)
negsuc a +ℤ pos b = minus b (suc a)
negsuc a +ℤ negsuc b = negsuc (suc (a + b))

unfoldable pub neg : ℤ → ℤ
neg (pos zero) = pos zero
neg (pos (suc n)) = negsuc n
neg (negsuc n) = pos (suc n)

unfoldable pub leb_ℤ : ℤ → ℤ → Bool
leb_ℤ (pos a) (pos b) = leb a b
leb_ℤ (pos a) (negsuc b) = false
leb_ℤ (negsuc a) (pos b) = true
leb_ℤ (negsuc a) (negsuc b) = leb b a

-- `Math.min` and `Math.max`.
unfoldable pub min : ℤ → ℤ → ℤ
min a b = if leb_ℤ a b then a else b

unfoldable pub max : ℤ → ℤ → ℤ
max a b = if leb_ℤ a b then b else a

-- The panels by their ids, in the order of their registration.
abbrev pub Panels : Type 0
Panels = List (JsString × ℤ)

-- `Map.prototype.set` keeps the place of a key that is there.
unfoldable pub register_panel : JsString → ℤ → Panels → Panels
register_panel id size [] = (id, size) ∷ []
register_panel id size ((k, s) ∷ panels) =
    let rest = register_panel id size panels in
    if str_eq k id then (k, size) ∷ panels else (k, s) ∷ rest

unfoldable pub unregister_panel : JsString → Panels → Panels
unregister_panel id panels = filter (λ p. not (str_eq p.0 id)) panels

-- What the closure of `onMove` keeps.
pub record Drag : Type 0 where
  pub handle_index : ℕ
  pub start_pos : ℤ
  pub start_before_size : ℤ
  pub total : ℤ

-- `if (!before || !after) return;`, and what is read of the two.
abbrev pub drag_of : ℕ → ℤ → Option (JsString × ℤ) → Option (JsString × ℤ) → Option Drag
drag_of index start (some before) (some after) = some (record {
  handle_index = index;
  start_pos = start;
  start_before_size = before.1;
  total = before.1 +ℤ after.1;
})
drag_of index start _ _ = none

unfoldable pub start_resize : ℕ → ℤ → Panels → Option Drag
start_resize index start panels =
    drag_of index start (get_elem? panels index) (get_elem? panels (suc index))

unfoldable pub new_before : Drag → ℤ → ℤ
new_before d client =
    max (pos 40)
      (min (d.total +ℤ neg (pos 40)) (d.start_before_size +ℤ (client +ℤ neg d.start_pos)))

-- The size of the panel at a place is set.
unfoldable pub resize_at : ℕ → ℤ → Panels → Panels
resize_at i size [] = []
resize_at zero size ((k, _) ∷ panels) = (k, size) ∷ panels
resize_at (suc i) size (p ∷ panels) = p ∷ resize_at i size panels

unfoldable pub on_move : Drag → ℤ → Panels → Panels
on_move d client panels =
    let before = new_before d client in
    resize_at (suc d.handle_index) (d.total +ℤ neg before) (resize_at d.handle_index before panels)
