-- ===== src/Scenes/Chart/Rerolling.antt =====
-- What the loop over the columns does to the bars, where they stand on the cells of the grid.
use build_a_computer.Base.{
  ℕ, zero, suc, ◌+◌, ◌*◌, ◌<◌, ◌≤◌, ◌≡◌, refl, sym, ap, ◌∙◌, inl, inr, Bool, true, false, ◌&&◌,
  if◌then◌else◌, ◌==◌, leb, ltb, Bool-cases, ==_iff, arith, map,
}
use build_a_computer.Base.Real.{JsReal}
use build_a_computer.Random.Laws.{held, held_add}
use build_a_computer.Scenes.Chart.{cols, Bar, Results, range, reroll_column, reroll}
use build_a_computer.Scenes.Chart.Columns.{
  place, places, IsGrid, map-IsGrid, map-map, map-cong, map-id, before, fresh, column_lem,
}

nested_if :
    {A : Type 0} (a b : Bool) (x y : A)
    → (if a then if b then x else y else y) ≡ (if a && b then x else y)
nested_if true b x y = refl
nested_if false b x y = refl

if_true : {A : Type 0} (b : Bool) (x y : A) → b ≡ true → (if b then x else y) ≡ x
if_true b x y h = rw h refl

if_false : {A : Type 0} (b : Bool) (x y : A) → b ≡ false → (if b then x else y) ≡ y
if_false b x y h = rw h refl

-- A column from k to k + n, exclusive, that is crossed.
abbrev pub is_hit : (ℕ → Bool) → (k n : ℕ) → ℕ → Bool
is_hit crossed k n col = crossed col && (leb k col && ltb col (k + n))

no_hit : (crossed : ℕ → Bool) (k c : ℕ) → is_hit crossed k 0 c ≡ false
no_hit crossed k c = ground arith

hit_now :
    (crossed : ℕ → Bool) (k n c : ℕ)
    → crossed k && (c == k) ≡ true
    → (c ≡ k) × (is_hit crossed (suc k) n c ≡ false) × (is_hit crossed k (suc n) c ≡ true)
hit_now crossed k n c h =
    let e : c ≡ k = ground arith in (e, rw e (ground arith), rw e (ground arith))

hit_later :
    (crossed : ℕ → Bool) (k n c : ℕ)
    → crossed k && (c == k) ≡ false
    → is_hit crossed (suc k) n c ≡ is_hit crossed k (suc n) c
hit_later crossed k n c h = elim (Bool-cases (c == k)) [
  | inl e ↦
      let same = (==_iff c k).0 e in
      let off : crossed k ≡ false = ground (arith, h, e) in
      ap (λ b. b && (leb (suc k) c && ltb c (suc k + n))) (ap crossed same ∙ off)
      ∙ sym (ap (λ b. b && (leb k c && ltb c (k + suc n))) (ap crossed same ∙ off))
  | inr e ↦ ap (λ b. crossed c && b) (ground (arith, e))
]

module _ {N : Type 0} (d : JsReal N) (nan : N) where
  struck : (k seed : ℕ) → Bar N → Bar N
  struck k seed b = if b.col == k then fresh d nan seed b else b

  struck-place : (k seed : ℕ) (b : Bar N) → place (struck k seed b) ≡ place b
  unfolding struck
  struck-place k seed b = elim (Bool-cases (b.col == k)) [ inl e ↦ rw e refl | inr e ↦ rw e refl ]

  -- The turn of the loop for a column, where `seed` is the one before the loop and m columns were crossed since.
  turn_lem :
      (is_crossed : Bool) (k m seed : ℕ) (r : Results N)
      → k < cols
      → IsGrid r
      → r.seed ≡ held (5 * m) seed
      → let s : Results N = if is_crossed then reroll_column d nan k r else r in
        (s.seed ≡ held (5 * (if is_crossed then suc m else m)) seed)
        × (s.bars ≡ map (λ b. if is_crossed then struck k (held (5 * m) seed) b else b) r.bars)
        × IsGrid s
  unfolding struck
  turn_lem false k m seed r h g e = (e, sym (map-id r.bars), g)
  turn_lem true k m seed r h g e =
      let (left, bars, factors) = column_lem d nan k r h g in
      let moved =
        map-IsGrid (struck k (held (5 * m) seed)) r (struck-place k (held (5 * m) seed)) g in
      let now = bars ∙ ap (λ s. map (λ b. if b.col == k then fresh d nan s b else b) r.bars) e in
      (
        left ∙ ap (held 5) e ∙ sym (held_add (5 * m) 5 seed) ∙ ap (λ n. held n seed) more,
        now,
        record { placed = ap places now ∙ moved.placed; factors = factors },
      )
    where
      more : 5 * m + 5 ≡ 5 * suc m
      more = omega arith

  -- A bar after the turns for the columns from k to k + n, exclusive.
  abbrev pub after : (ℕ → Bool) → (k n seed : ℕ) → Bar N → Bar N
  after crossed k n seed b =
      if is_hit crossed k n b.col then fresh d nan (held (5 * before crossed b.col) seed) b else b

  after_join :
      (crossed : ℕ → Bool) (k n seed : ℕ) (b : Bar N)
      → after crossed
          (suc k)
          n
          seed
          (if crossed k then struck k (held (5 * before crossed k) seed) b else b)
        ≡ after crossed k (suc n) seed b
  unfolding struck
  after_join crossed k n seed b =
      let at : ℕ → Bar N = λ c. fresh d nan (held (5 * before crossed c) seed) b in
      let turned = nested_if (crossed k) (b.col == k) (at k) b in
      elim (Bool-cases (crossed k && (b.col == k))) [
        | inl h ↦
            let (same, off, on) = hit_now crossed k n b.col h in
            ap (after crossed (suc k) n seed) (turned ∙ if_true _ (at k) b h)
            ∙ if_false (is_hit crossed (suc k) n b.col) _ (at k) off
            ∙ ap at (sym same)
            ∙ sym (if_true (is_hit crossed k (suc n) b.col) (at b.col) b on)
        | inr h ↦
            ap (after crossed (suc k) n seed) (turned ∙ if_false _ (at k) b h)
            ∙ ap (λ hit. if hit then at b.col else b) (hit_later crossed k n b.col h)
      ]

  pub reroll_lem :
      (crossed : ℕ → Bool) (n k seed : ℕ) (r : Results N)
      → k + n ≤ cols
      → IsGrid r
      → r.seed ≡ held (5 * before crossed k) seed
      → let s = reroll d nan crossed (range k n) r in
        (s.seed ≡ held (5 * before crossed (k + n)) seed)
        × (s.bars ≡ map (after crossed k n seed) r.bars)
        × IsGrid s
  unfolding reroll before
  reroll_lem crossed zero k seed r h g e = (
    e ∙ ap (λ m. held (5 * before crossed m) seed) same,
    sym (map-id r.bars) ∙ map-cong (λ b. b) (after crossed k 0 seed) kept r.bars,
    g,
  )
    where
      same : k ≡ k + 0
      same = omega arith

      kept : (b : Bar N) → b ≡ after crossed k 0 seed b
      kept b = sym (if_false (is_hit crossed k 0 b.col) _ b (no_hit crossed k b.col))
  reroll_lem crossed (suc n) k seed r h g e =
      let (left, bars, grid) =
        turn_lem (crossed k) k (before crossed k) seed r (omega (arith, h)) g e in
      let (left', bars', grid') =
        reroll_lem crossed n (suc k) seed (if crossed k then reroll_column d nan k r else r)
          (omega (arith, h)) grid left in
      (
        left' ∙ ap (λ m. held (5 * before crossed m) seed) same,
        bars'
            ∙ ap (map (after crossed (suc k) n seed)) bars
            ∙ map-map _ _ r.bars
            ∙ map-cong _ _ (after_join crossed k n seed) r.bars,
        grid',
      )
    where
      same : suc k + n ≡ k + suc n
      same = omega arith
