-- ===== src/Benchmarks/Options/Choices.antt =====
-- The choices of the panel and the list that they leave.
use mathlib.Core.Path.{subst}
use build_a_computer.Base.{
  ◌≡◌, refl, sym, ◌∙◌, inl, inr, true, false, some, List, [], ◌∷◌, ◌++◌, arith, map, filter, In,
  In-filter_iff, All, All-In,
}
use build_a_computer.Base.Sort.{In-sort}
use build_a_computer.Base.Strings.{JsString}
use build_a_computer.Base.Number.{JsNumber, IsOrdered, IsFinite}
use build_a_computer.Benchmarks.{BenchmarkResponseDto, GameResponseDto}
use build_a_computer.Benchmarks.Filters.{
  Filters, Facet, wanted, toggle, toggle_value, toggle_resolution, is_shown, default_filters,
  fps_floor,
}
use build_a_computer.Benchmarks.Filters.Laws.{Passes, Selects, value_of, is_shown_iff}
use build_a_computer.Benchmarks.Filters.Toggling.{toggle_parts, Facet-discrete}
use build_a_computer.Benchmarks.Options.{
  FilterOptions, unique_from, max_of, max_avg_fps, derive_filter_options,
}
use build_a_computer.Benchmarks.Options.Laws.{offered, In-offered, In-map_iff}

-- A box of the panel: a value of one of the ten text facets, or a resolution.
pub data Box (N : Type 0) : Type 0 where
  facet_box : Facet → JsString → Box N
  resolution_box : N → Box N

module _ {N : Type 0} ⦃d : JsNumber N⦄ where
  abbrev pub start : Filters N
  start = default_filters {N = N}

  -- The boxes that the panel shows for these options.
  abbrev pub IsOffered : FilterOptions N → Box N → Type 0
  IsOffered options (facet_box k v) = In v (offered options k)
  IsOffered options (resolution_box r) = In r options.resolutions

  -- `onCheckedChange` of a box.
  abbrev pub tick : Box N → Filters N → Filters N
  tick (facet_box k v) f = toggle k v f
  tick (resolution_box r) f = toggle_resolution r f

  -- Only one box of the default filters is ticked.
  ticked-Selects :
      (k j : Facet) (v : JsString) (b : BenchmarkResponseDto N)
      → value_of b k ≡ some v
      → Selects (wanted (toggle k v start) j) (value_of b j)
  ticked-Selects k j v b e = elim (Facet-discrete k j) [
    | yes same ↦
        subst (λ i. Selects (wanted (toggle k v start) i) (value_of b i)) same
          (inr (v, e, (toggle_parts start k v).0.1 (not_wanted k v)))
    | no other ↦ inl ((toggle_parts start k v).2 j other ∙ empty j)
  ]
    where
      empty : (i : Facet) → wanted start i ≡ []
      empty i = ground arith

      not_wanted : (i : Facet) (u : JsString) → ¬ In u (wanted start i)
      not_wanted i u = subst (λ ws. ¬ In u ws) (sym (empty i)) (λ h. h)

  ticked-Passes :
      (k : Facet) (v : JsString) (b : BenchmarkResponseDto N)
      → value_of b k ≡ some v
      → d.lt b.avg_fps fps_floor ≡ false
      → Passes (toggle k v start) b
  ticked-Passes k v b e low = record {
    facets = λ j. ticked-Selects k j v b e;
    resolution = inl ((toggle_parts start k v).3);
    fps = subst (λ m. d.lt b.avg_fps m ≡ false) (sym ((toggle_parts start k v).4)) low;
  }

  unique_from-In : (r : N) (seen xs : List N) → In r (unique_from d.same seen xs) → In r xs
  unfolding unique_from
  unique_from-In r seen [] = ground arith
  unique_from-In r seen (x ∷ xs) =
      ground (arith, unique_from-In r seen xs, unique_from-In r (seen ++ x ∷ []) xs)

  resolution-Passes :
      (b : BenchmarkResponseDto N)
      → d.same b.resolution b.resolution ≡ true
      → d.lt b.avg_fps fps_floor ≡ false
      → Passes (toggle_resolution b.resolution start) b
  unfolding toggle_resolution toggle_value
  resolution-Passes b e low = record {
    facets = λ j. inl (empty j);
    resolution = inr (rw e refl);
    fps = low;
  }
    where
      empty : (j : Facet) → wanted (toggle_resolution b.resolution start) j ≡ []
      empty j = ground arith

  box-Passes :
      (bs : List (BenchmarkResponseDto N)) (games : List (GameResponseDto N)) (box : Box N)
      → ((x : N) → d.same x x ≡ true)
      → All (λ b. d.lt b.avg_fps fps_floor ≡ false) bs
      → IsOffered (derive_filter_options bs games) box
      → (b : BenchmarkResponseDto N) × In b bs × Passes (tick box start) b
  unfolding derive_filter_options
  box-Passes bs games (facet_box k v) equal low i =
      let (b, j, e, _) = (In-offered bs games k v).0 i in
      (b, j, ticked-Passes k v b e (All-In (λ c. d.lt c.avg_fps fps_floor ≡ false) bs low b j))
  box-Passes bs games (resolution_box r) equal low i =
      let all = map (λ (b : BenchmarkResponseDto N). b.resolution) bs in
      let there = unique_from-In r [] all ((In-sort _ r (unique_from d.same [] all)).0 i) in
      let (b, j, e) = (In-map_iff (λ b. b.resolution) r bs).0 there in
      (
        b,
        j,
        subst (λ x. Passes (toggle_resolution x start) b) e
            (resolution-Passes b (equal b.resolution)
              (All-In (λ c. d.lt c.avg_fps fps_floor ≡ false) bs low b j)),
      )

  -- With nothing else asked for, a box that the panel offers, of one of the ten text facets or of a
  -- resolution, leaves a benchmark in the list, where no frame rate is negative and SameValueZero holds of each
  -- number and itself.
  pub offered-shown :
      (bs : List (BenchmarkResponseDto N)) (games : List (GameResponseDto N)) (box : Box N)
      → ((x : N) → d.same x x ≡ true)
      → All (λ b. d.lt b.avg_fps fps_floor ≡ false) bs
      → IsOffered (derive_filter_options bs games) box
      → (b : BenchmarkResponseDto N) × In b (filter (is_shown (tick box start)) bs)
  offered-shown bs games box equal low i =
      let (b, j, passes) = box-Passes bs games box equal low i in
      (
        b,
        (In-filter_iff (is_shown (tick box start)) b bs).1
            (j, (is_shown_iff (tick box start) b).1 passes),
      )

  All-unmap :
      (P : N → Type 0) (bs : List (BenchmarkResponseDto N))
      → All P (map (λ c. c.avg_fps) bs)
      → All (λ b. P b.avg_fps) bs
  All-unmap P [] h = h
  All-unmap P (b ∷ bs) (h, hs) = (h, All-unmap P bs hs)

  slid-shown :
      (m : N) (b : BenchmarkResponseDto N)
      → d.lt b.avg_fps m ≡ false
      → is_shown (record start { min_avg_fps = m }) b ≡ true
  slid-shown m b slow =
      (is_shown_iff (record start { min_avg_fps = m }) b).1
        (record { facets = λ k. inl (empty k); resolution = inl refl; fps = slow })
    where
      empty : (k : Facet) → wanted (record start { min_avg_fps = m }) k ≡ []
      empty k = ground arith

  module _ (o : IsOrdered d) where
    -- The largest of some finite numbers is one of them and below none.
    abbrev IsLargest : N → N → List N → Type 0
    IsLargest m x xs = In m (x ∷ xs) × All (λ y. d.lt m y ≡ false) (x ∷ xs)

    largest-In : (x y m : N) (ys : List N) → In m (d.max x y ∷ ys) → In m (x ∷ y ∷ ys)
    largest-In x y m ys (inr i) = inr (inr i)
    largest-In x y m ys (inl e) = elim (o.max_eq x y) [
      | inl e' ↦ inl (e ∙ e')
      | inr e' ↦ inr (inl (e ∙ e'))
    ]

    max_of-IsLargest : (x : N) (xs : List N) → All IsFinite (x ∷ xs) → IsLargest (max_of x xs) x xs
    unfolding max_of
    max_of-IsLargest x [] f = (inl refl, (o.lt_irrefl x, tt))
    max_of-IsLargest x (y ∷ ys) (fx, (fy, fs)) =
        let (i, (low, lows)) = max_of-IsLargest (d.max x y) ys (o.max_finite x y fx fy, fs) in
        let m = max_of (d.max x y) ys in
        let (gx, gy) = o.max_ge x y fx fy in
        (
          largest-In x y m ys i,
          (
            o.ge_trans m (d.max x y) x (o.max_finite x y fx fy) low gx,
            (o.ge_trans m (d.max x y) y (o.max_finite x y fx fy) low gy, lows),
          ),
        )

    All-map-IsFinite :
        (bs : List (BenchmarkResponseDto N))
        → All (λ b. IsFinite b.avg_fps) bs
        → All IsFinite (map (λ c. c.avg_fps) bs)
    All-map-IsFinite [] h = h
    All-map-IsFinite (b ∷ bs) (h, hs) = (h, All-map-IsFinite bs hs)

    -- Under the laws of numbers, and where the averages are finite, the end of the frame rate
    -- slider is a bound of the averages that were fetched, and with nothing else asked for the
    -- list keeps a benchmark wherever the slider is set up to there.
    max_avg_fps_lem :
        (b₀ : BenchmarkResponseDto N) (bs : List (BenchmarkResponseDto N)) (m : N)
        → All (λ b. IsFinite b.avg_fps) (b₀ ∷ bs)
        → d.lt (max_avg_fps (b₀ ∷ bs)) m ≡ false
        → All (λ b. d.lt (max_avg_fps (b₀ ∷ bs)) b.avg_fps ≡ false) (b₀ ∷ bs)
          × ((b : BenchmarkResponseDto N) × In b
                (filter (is_shown (record start { min_avg_fps = m })) (b₀ ∷ bs)))
    unfolding max_avg_fps
    max_avg_fps_lem b₀ bs m (f, fs) low =
        let (i, lows) =
          max_of-IsLargest b₀.avg_fps (map (λ c. c.avg_fps) bs) (f, All-map-IsFinite bs fs) in
        let (b, j, e) = (In-map_iff (λ c. c.avg_fps) (max_avg_fps (b₀ ∷ bs)) (b₀ ∷ bs)).0 i in
        (
          All-unmap (λ y. d.lt (max_avg_fps (b₀ ∷ bs)) y ≡ false) (b₀ ∷ bs) lows,
          let slow : d.lt b.avg_fps m ≡ false = subst (λ t. d.lt t m ≡ false) (sym e) low in
              (
                b,
                (In-filter_iff (is_shown (record start { min_avg_fps = m })) b (b₀ ∷ bs)).1
                    (j, slid-shown m b slow),
              ),
        )
