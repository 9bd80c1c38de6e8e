-- ===== src/Benchmarks/Filters/Clearing.antt =====
-- The "Clear" button of filter-panel.tsx, which is there while a filter is active.
use build_a_computer.Base.{
  ◌≡◌, refl, inl, true, false, List, [], ◌∷◌, arith, filter, filter-eq_self, All, length, ltb,
}
use build_a_computer.Base.Number.{JsNumber, IsOrdered}
use build_a_computer.Benchmarks.{BenchmarkResponseDto}
use build_a_computer.Benchmarks.Filters.{
  Filters, Facet, wanted, is_shown, fps_floor, has_active_filters, reset,
}
use build_a_computer.Benchmarks.Filters.Laws.{is_shown_iff}

eq-nil_of_length : {A : Type 0} (xs : List A) → ltb 0 (length xs) ≡ false → xs ≡ []
eq-nil_of_length [] h = refl
eq-nil_of_length (x ∷ xs) h = ground arith

module _ {N : Type 0} ⦃d : JsNumber N⦄ where
  inactive-facets : (f : Filters N) → has_active_filters f ≡ false → (k : Facet) → wanted f k ≡ []
  unfolding has_active_filters
  inactive-facets f h Facet.gpu_vendors = eq-nil_of_length f.gpu_vendors (ground arith)
  inactive-facets f h Facet.gpu_series = eq-nil_of_length f.gpu_series (ground arith)
  inactive-facets f h Facet.gpu_memory_gen = eq-nil_of_length f.gpu_memory_gen (ground arith)
  inactive-facets f h Facet.cpu_vendors = eq-nil_of_length f.cpu_vendors (ground arith)
  inactive-facets f h Facet.cpu_family = eq-nil_of_length f.cpu_family (ground arith)
  inactive-facets f h Facet.cpu_socket = eq-nil_of_length f.cpu_socket (ground arith)
  inactive-facets f h Facet.ram_ddr = eq-nil_of_length f.ram_ddr (ground arith)
  inactive-facets f h Facet.ram_brand = eq-nil_of_length f.ram_brand (ground arith)
  inactive-facets f h Facet.games = eq-nil_of_length f.games (ground arith)
  inactive-facets f h Facet.graphics_qualities =
      eq-nil_of_length f.graphics_qualities (ground arith)

  inactive-rest :
      (f : Filters N)
      → has_active_filters f ≡ false
      → (f.resolutions ≡ []) × (d.lt fps_floor f.min_avg_fps ≡ false)
  unfolding has_active_filters
  inactive-rest f h = (eq-nil_of_length f.resolutions (ground arith), ground arith)

  module _ (o : IsOrdered d) where
    reset_inactive : has_active_filters {N = N} reset ≡ false
    unfolding has_active_filters reset
    reset_inactive = o.lt_irrefl fps_floor

    inactive-shows :
        (f : Filters N) (b : BenchmarkResponseDto N)
        → d.is_finite fps_floor ≡ true
        → has_active_filters f ≡ false
        → d.lt b.avg_fps fps_floor ≡ false
        → is_shown f b ≡ true
    inactive-shows f b zero h low = (is_shown_iff f b).1 (record {
      facets = λ k. inl (inactive-facets f h k);
      resolution = inl (inactive-rest f h).0;
      fps = o.ge_trans b.avg_fps fps_floor f.min_avg_fps zero low (inactive-rest f h).1;
    })

    All-inactive :
        (f : Filters N) (bs : List (BenchmarkResponseDto N))
        → d.is_finite fps_floor ≡ true
        → has_active_filters f ≡ false
        → All (λ b. d.lt b.avg_fps fps_floor ≡ false) bs
        → All (λ b. is_shown f b ≡ true) bs
    All-inactive f [] zero h _ = tt
    All-inactive f (b ∷ bs) zero h (low, lows) =
        (inactive-shows f b zero h low, All-inactive f bs zero h lows)

    -- Under the laws of numbers, where no filter is active, no frame rate is below the floor and
    -- the floor is finite, nothing is hidden.
    inactive-filter :
        (f : Filters N) (bs : List (BenchmarkResponseDto N))
        → d.is_finite fps_floor ≡ true
        → All (λ b. d.lt b.avg_fps fps_floor ≡ false) bs
        → has_active_filters f ≡ false
        → filter (is_shown f) bs ≡ bs
    inactive-filter f bs zero low h = filter-eq_self (is_shown f) bs (All-inactive f bs zero h low)

    -- Under the laws of numbers "Clear" leaves no filter active, so that nothing is hidden, where
    -- no frame rate is below the floor and the floor is finite.
    reset-filter :
        (bs : List (BenchmarkResponseDto N))
        → d.is_finite fps_floor ≡ true
        → All (λ b. d.lt b.avg_fps fps_floor ≡ false) bs
        → (has_active_filters {N = N} reset ≡ false) × (filter (is_shown reset) bs ≡ bs)
    reset-filter bs zero low = (reset_inactive, inactive-filter reset bs zero low reset_inactive)
