-- ===== src/Scenes/Chart/Measuring.antt =====
-- The grid that the bars are made on, and a sweep that measures some columns again.
use mathlib.Core.Path.{subst}
use build_a_computer.Base.{
  ℕ, zero, suc, ◌+◌, ◌*◌, ◌≡◌, refl, sym, ap, ◌∙◌, Bool, true, false, ◌&&◌, List, [], ◌∷◌, All, map,
  length, every, if◌then◌else◌, leb, ltb, arith,
}
use build_a_computer.Base.Real.{JsReal}
use build_a_computer.Random.{draw}
use build_a_computer.Random.Laws.{held}
use build_a_computer.Scenes.Chart.{
  cols, rows, Bar, Results, range, cells, factor, make_factors, make_bars, set_up, reroll,
}
use build_a_computer.Scenes.Chart.Columns.{
  place, places, IsGrid, map-id, before, fresh, measured_bar,
}
use build_a_computer.Scenes.Chart.Rerolling.{after, reroll_lem}

every-All : {A : Type 0} (p : A → Bool) (xs : List A) → every p xs ≡ true → All (λ x. p x ≡ true) xs
every-All p [] h = tt
every-All p (x ∷ xs) h = (ground (arith, h), every-All p xs (ground (arith, h)))

columns_within : All (λ (p : ℕ × ℕ). ltb p.1 cols ≡ true) (cells (range 0 rows))
columns_within = every-All (λ p. ltb p.1 cols) (cells (range 0 rows)) refl

hit_within : (b : Bool) (col : ℕ) → ltb col cols ≡ true → b && (leb 0 col && ltb col (0 + cols)) ≡ b
hit_within b col h = ground (arith, h)

module _ {N : Type 0} where
  -- What holds of all cells holds of the cells of the bars.
  places-All :
      (P : ℕ × ℕ → Type 0) (bs : List (Bar N)) → All P (places bs) → All (λ b. P (place b)) bs
  places-All P [] h = tt
  places-All P (b ∷ bs) (h, hs) = (h, places-All P bs hs)

  map-under :
      (P : Bar N → Type 0) (f g : Bar N → Bar N)
      → ((b : Bar N) → P b → f b ≡ g b)
      → (bs : List (Bar N)) → All P bs
      → map f bs ≡ map g bs
  map-under P f g h [] ps = refl
  map-under P f g h (b ∷ bs) (p, ps) = cc (h b p, map-under P f g h bs ps)

module _ {N : Type 0} (d : JsReal N) (nan : N) where
  length-make_factors : (n seed : ℕ) → length (make_factors d n seed).0 ≡ n
  unfolding make_factors
  length-make_factors zero seed = refl
  length-make_factors (suc n) seed = ap suc (length-make_factors n (factor d seed).1)

  places-make_bars :
      (fs : List N) (cs : List (ℕ × ℕ)) (seed : ℕ) → places (make_bars d nan fs cs seed).0 ≡ cs
  unfolding make_bars
  places-make_bars fs [] seed = refl
  places-make_bars fs ((row, col) ∷ cs) seed =
      ap (λ ps. (row, col) ∷ ps) (places-make_bars fs cs (draw seed).1)

  pub set_up-IsGrid : IsGrid (set_up d nan)
  unfolding set_up
  set_up-IsGrid = record {
    placed =
        places-make_bars (make_factors d cols 7).0 (cells (range 0 rows)) (make_factors d cols 7).1;
    factors = length-make_factors cols 7;
  }

  after-measured_bar :
      (crossed : ℕ → Bool) (seed : ℕ) (b : Bar N)
      → ltb b.col cols ≡ true
      → after d nan crossed 0 cols seed b ≡ measured_bar d nan crossed seed b
  after-measured_bar crossed seed b h =
      ap (λ hit. if hit then fresh d nan (held (5 * before crossed b.col) seed) b else b)
        (hit_within (crossed b.col) b.col h)

  -- A sweep that may measure the crossed columns again.
  pub measured_lem :
      (is_out : Bool) (crossed : ℕ → Bool) (r : Results N)
      → IsGrid r
      → let s = if is_out then reroll d nan crossed (range 0 cols) r else r in
        let hit : ℕ → Bool = λ col. if is_out then crossed col else false in
        (s.seed ≡ held (5 * before hit cols) r.seed)
        × (s.bars ≡ map (measured_bar d nan hit r.seed) r.bars)
        × IsGrid s
  unfolding before
  measured_lem true crossed r g =
      let (left, bars, grid) = reroll_lem d nan crossed cols 0 r.seed r (omega arith) g refl in
      (
        left,
        bars
            ∙ map-under (λ b. ltb b.col cols ≡ true) (after d nan crossed 0 cols r.seed)
                (measured_bar d nan crossed r.seed) (after-measured_bar crossed r.seed) r.bars
                (places-All (λ p. ltb p.1 cols ≡ true) r.bars
                  (subst (All (λ p. ltb p.1 cols ≡ true)) (sym g.placed) columns_within)),
        grid,
      )
  measured_lem false crossed r g = (refl, sym (map-id r.bars), g)
