-- ===== src/Scenes/Chart/Columns.antt =====
-- What the turn of one column does to the bars, where they stand on the cells of the grid.
use mathlib.Core.Path.{subst}
use build_a_computer.Base.{
  ℕ, zero, suc, ◌*◌, ◌<◌, ◌≡◌, refl, sym, ap, ◌∙◌, inl, inr, Bool, true, false, ◌&&◌, List, [], ◌∷◌,
  if◌then◌else◌, ◌==◌, Bool-cases, ==_iff, arith, length, map,
}
use build_a_computer.Base.Real.{JsReal}
use build_a_computer.Random.{draw}
use build_a_computer.Random.Laws.{held}
use build_a_computer.Scenes.Chart.{
  cols, rows, Bar, Results, entry, assign, range, cells, tier_factor, fraction, factor,
  sample_value, reroll_bar, reroll_bars, reroll_column,
}

abbrev pub place : {N : Type 0} → Bar N → ℕ × ℕ
place b = (b.row, b.col)

-- The cells that the bars stand on.
abbrev pub places : {N : Type 0} → List (Bar N) → List (ℕ × ℕ)
places bars = map place bars

-- There is one bar for each cell of the grid, in order, and one factor for each column.
pub record IsGrid {N : Type 0} (r : Results N) : Type 0 where
  pub placed : places r.bars ≡ cells (range 0 rows)
  pub factors : length r.game_factor ≡ cols

pub map-IsGrid :
    {N : Type 0} (f : Bar N → Bar N) (r : Results N)
    → ((b : Bar N) → place (f b) ≡ place b)
    → IsGrid r
    → IsGrid (record r { bars = map f r.bars })
map-IsGrid {N} f r h g = record { placed = same r.bars ∙ g.placed; factors = g.factors }
  where
    same : (bs : List (Bar N)) → places (map f bs) ≡ places bs
    same [] = refl
    same (b ∷ bs) = cc (h b, same bs)

entry-assign_self :
    {A : Type 0} (nan : A) (xs : List A) (i : ℕ) (x : A)
    → i < length xs
    → entry nan (assign xs i x) i ≡ x
entry-assign_self nan [] i x h = absurd (omega (arith, h))
entry-assign_self nan (y ∷ ys) zero x h = refl
entry-assign_self nan (y ∷ ys) (suc i) x h = entry-assign_self nan ys i x (omega (arith, h))

length-assign : {A : Type 0} (xs : List A) (i : ℕ) (x : A) → length (assign xs i x) ≡ length xs
length-assign [] i x = refl
length-assign (y ∷ ys) zero x = refl
length-assign (y ∷ ys) (suc i) x = ap suc (length-assign ys i x)

pub map-map : {A : Type 0} (f g : A → A) (xs : List A) → map g (map f xs) ≡ map (λ x. g (f x)) xs
map-map f g [] = refl
map-map f g (x ∷ xs) = ap (λ l. g (f x) ∷ l) (map-map f g xs)

pub map-cong :
    {A : Type 0} (f g : A → A) → ((x : A) → f x ≡ g x) → (xs : List A) → map f xs ≡ map g xs
map-cong f g h [] = refl
map-cong f g h (x ∷ xs) = cc (h x, map-cong f g h xs)

pub map-id : {A : Type 0} (xs : List A) → map (λ x. x) xs ≡ xs
map-id [] = refl
map-id (x ∷ xs) = ap (λ l. x ∷ l) (map-id xs)

-- The cells of a column, from row j on, are those of the rows up to the last one.
abbrev in_rows : (col j : ℕ) → List (ℕ × ℕ) → Bool
in_rows col j [] = j == rows
in_rows col j ((r, c) ∷ ps) =
    if c == col then r == j && in_rows col (suc j) ps else in_rows col j ps

cells-in_rows : (col : ℕ) → col < cols → in_rows col 0 (cells (range 0 rows)) ≡ true
cells-in_rows zero h = refl
cells-in_rows (suc zero) h = refl
cells-in_rows (suc (suc zero)) h = refl
cells-in_rows (suc (suc (suc zero))) h = refl
cells-in_rows (suc (suc (suc (suc zero)))) h = refl
cells-in_rows (suc (suc (suc (suc (suc zero))))) h = refl
cells-in_rows (suc (suc (suc (suc (suc (suc n)))))) h = absurd (omega (arith, h))

in_row : (a x y b : Bool) → b ≡ true → (if b then a && x else y) ≡ true → (a ≡ true) × (x ≡ true)
in_row a x y b e h = ground arith

not_in_row : (a x y b : Bool) → b ≡ false → (if b then a && x else y) ≡ true → y ≡ true
not_in_row a x y b e h = ground arith

-- How many columns before c are crossed.
unfoldable pub before : (ℕ → Bool) → ℕ → ℕ
before crossed zero = 0
before crossed (suc c) = if crossed c then suc (before crossed c) else before crossed c

module _ {N : Type 0} (d : JsReal N) (nan : N) where
  -- A bar that is measured with the generator at this seed: the factor of its column is drawn first, then a
  -- sample for each row, in order.
  abbrev pub fresh : ℕ → Bar N → Bar N
  fresh seed b = record b {
    target =
        d.mul (d.mul (d.mul (d.dec 26 1) (entry nan (tier_factor d) b.row)) (factor d seed).0)
          (d.add (d.dec 88 2) (d.mul (fraction d (draw (held (suc b.row) seed)).0) (d.dec 12 2)));
    flash = d.dec 1 0;
  }

  -- A bar after the columns that are crossed were measured, each with a factor and four samples, where the
  -- generator was at this seed.
  abbrev pub measured_bar : (ℕ → Bool) → ℕ → Bar N → Bar N
  measured_bar crossed seed b =
      if crossed b.col then fresh (held (5 * before crossed b.col) seed) b else b

  abbrev sampled : List N → (col seed : ℕ) → Bar N → Bar N
  sampled fs col seed b =
      if b.col == col
      then record b {
        target = sample_value d nan fs (held b.row seed) b.row col;
        flash = d.dec 1 0;
      }
      else b

  held_next : (j seed : ℕ) → (draw (held j seed)).1 ≡ held (suc j) seed
  held_next zero seed = refl
  held_next (suc j) seed = held_next j (draw seed).1

  reroll_bars_lem :
      (fs : List N) (col seed j : ℕ) (bs : List (Bar N))
      → in_rows col j (places bs) ≡ true
      → reroll_bars d nan fs col (held j seed) bs ≡ (map (sampled fs col seed) bs, held rows seed)
  unfolding reroll_bars reroll_bar
  reroll_bars_lem fs col seed j [] h = ap (λ n. ([], held n seed)) ((==_iff j rows).0 h)
  reroll_bars_lem fs col seed j (b ∷ bs) h = elim (Bool-cases (b.col == col)) [
    | inl e ↦
        let (row, others) = in_row (b.row == j) _ _ (b.col == col) e h in
        let first : ℕ → Bar N = λ r. record b {
          target = sample_value d nan fs (held r seed) b.row col;
          flash = d.dec 1 0;
        } in
        rw e (
          ap (λ n. let q = reroll_bars d nan fs col n bs in (first j ∷ q.0, q.1)) (held_next j seed)
          ∙ ap (λ q. (first j ∷ q.0, q.1)) (reroll_bars_lem fs col seed (suc j) bs others)
          ∙ ap (λ r. (first r ∷ map (sampled fs col seed) bs, held rows seed))
              (sym ((==_iff b.row j).0 row)))
    | inr e ↦
        let others = not_in_row (b.row == j) _ _ (b.col == col) e h in
        rw e (ap (λ q. (b ∷ q.0, q.1)) (reroll_bars_lem fs col seed j bs others))
  ]

  sampled-fresh :
      (fs : List N) (col seed : ℕ)
      → col < length fs
      → (b : Bar N)
      → sampled (assign fs col (factor d seed).0) col (factor d seed).1 b
        ≡ (if b.col == col then fresh seed b else b)
  sampled-fresh fs col seed h b = elim (Bool-cases (b.col == col)) [
    | inl e ↦
        let share =
          d.add (d.dec 88 2) (d.mul (fraction d (draw (held (suc b.row) seed)).0) (d.dec 12 2)) in
        let top = d.mul (d.dec 26 1) (entry nan (tier_factor d) b.row) in
        let with_factor : N → Bar N =
          λ x. record b { target = d.mul (d.mul top x) share; flash = d.dec 1 0 } in
        rw e (ap with_factor (entry-assign_self nan fs col (factor d seed).0 h))
    | inr e ↦ rw e refl
  ]

  pub column_lem :
      (col : ℕ) (r : Results N)
      → col < cols
      → IsGrid r
      → let s = reroll_column d nan col r in
        (s.seed ≡ held 5 r.seed)
        × (s.bars ≡ map (λ b. if b.col == col then fresh r.seed b else b) r.bars)
        × (length s.game_factor ≡ cols)
  unfolding reroll_column
  column_lem col r h g =
      let fs = assign r.game_factor col (factor d r.seed).0 in
      let rolled =
        reroll_bars_lem fs col (factor d r.seed).1 0 r.bars
          (subst (λ ps. in_rows col 0 ps ≡ true) (sym g.placed) (cells-in_rows col h)) in
      (
        ap (λ q. q.1) rolled,
        ap (λ q. q.0) rolled
            ∙ map-cong (sampled fs col (factor d r.seed).1)
                (λ b. if b.col == col then fresh r.seed b else b)
                (sampled-fresh r.game_factor col r.seed (omega (arith, h, g.factors))) r.bars,
        length-assign r.game_factor col (factor d r.seed).0 ∙ g.factors,
      )
