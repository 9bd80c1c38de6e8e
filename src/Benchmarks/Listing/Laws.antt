-- ===== src/Benchmarks/Listing/Laws.antt =====
-- What the list of benchmarks-page.tsx holds, and in which order.
use build_a_computer.Base.{
  ◌≡◌, sym, ap, ◌∙◌, ◌↔◌, inl, inr, Bool, true, false, List, [], ◌∷◌, arith, if◌then◌else◌, filter,
  In, In-filter_iff, All, Bool-cases,
}
use build_a_computer.Base.Number.{JsNumber, IsOrdered, IsFinite}
use build_a_computer.Base.Sort.{
  sort, All-sort, IsSorted, IsConsistent, In-sort, sort-IsSorted, sort-stable,
}
use build_a_computer.Benchmarks.{BenchmarkResponseDto}
use build_a_computer.Benchmarks.Filters.{Filters, is_shown}
use build_a_computer.Benchmarks.Filters.Laws.{Passes, is_shown_iff}
use build_a_computer.Benchmarks.Format.{system_price}
use build_a_computer.Benchmarks.Listing.{
  SortKey, avg_fps_desc, min_fps_desc, max_fps_desc, price_asc, price_desc, comparator, goes_after,
  filtered,
}

-- The list holds just the benchmarks that pass the filters.
In-filtered :
    {N : Type 0} ⦃d : JsNumber N⦄ (bs : List (BenchmarkResponseDto N)) (f : Filters N)
    (key : SortKey) (b : BenchmarkResponseDto N)
    → In b (filtered bs f key) ↔ (In b bs × Passes f b)
unfolding filtered
In-filtered bs f key b =
    let shown = filter (is_shown f) bs in
    let (out, back) = In-sort (goes_after key) b shown in
    let (keep, kept) = In-filter_iff (is_shown f) b bs in
    (
      λ h. let (i, e) = keep (out h) in (i, (is_shown_iff f b).0 e),
      λ h. back (kept (h.0, (is_shown_iff f b).1 h.1)),
    )

abbrev pub is_ascending : SortKey → Bool
is_ascending price_asc = true
is_ascending _ = false

module _ {N : Type 0} ⦃d : JsNumber N⦄ where
  -- The number that a benchmark is ordered by.
  abbrev pub rank : SortKey → BenchmarkResponseDto N → N
  rank avg_fps_desc b = b.avg_fps
  rank min_fps_desc b = b.min_fps
  rank max_fps_desc b = b.max_fps
  rank price_asc b = system_price b
  rank price_desc b = system_price b

  -- A number goes behind another in an ascending or a descending order.
  abbrev pub behind : Bool → N → N → Bool
  behind ascending x y = if ascending then d.lt y x else d.lt x y

  -- `a` may stand before `b`: its rank is not smaller, or not larger where the order is ascending.
  abbrev pub MayPrecede : SortKey → BenchmarkResponseDto N → BenchmarkResponseDto N → Type 0
  MayPrecede key a b = behind (is_ascending key) (rank key a) (rank key b) ≡ false

  abbrev pub InOrder : SortKey → List (BenchmarkResponseDto N) → Type 0
  InOrder key [] = Unit
  InOrder key (b ∷ bs) = All (MayPrecede key b) bs × InOrder key bs

  abbrev pub IsRanked : SortKey → BenchmarkResponseDto N → Type 0
  IsRanked key b = IsFinite (rank key b)

  module _ (o : IsOrdered d) where
    lt_asymm : (x y : N) → d.lt x y ≡ true → d.lt y x ≡ false
    lt_asymm x y h = elim (Bool-cases (d.lt y x)) [
      | inl e ↦ cc (o.lt_trans x y x h e, o.lt_irrefl x)
      | inr e ↦ e
    ]

    behind_flip : (asc : Bool) (x y : N) → behind asc x y ≡ true → behind asc y x ≡ false
    behind_flip true x y h = lt_asymm y x h
    behind_flip false x y h = lt_asymm x y h

    behind_chain :
        (asc : Bool) (x y z : N)
        → IsFinite y
        → behind asc x y ≡ false
        → behind asc y z ≡ false
        → behind asc x z ≡ false
    behind_chain true x y z fy h k = o.ge_trans z y x fy k h
    behind_chain false x y z fy h k = o.ge_trans x y z fy h k

    goes_after-eq :
        (key : SortKey) (a b : BenchmarkResponseDto N)
        → IsRanked key a
        → IsRanked key b
        → goes_after key a b ≡ behind (is_ascending key) (rank key a) (rank key b)
    unfolding goes_after comparator
    goes_after-eq avg_fps_desc a b h k = o.sub_pos _ _ k h
    goes_after-eq min_fps_desc a b h k = o.sub_pos _ _ k h
    goes_after-eq max_fps_desc a b h k = o.sub_pos _ _ k h
    goes_after-eq price_asc a b h k = o.sub_pos _ _ h k
    goes_after-eq price_desc a b h k = o.sub_pos _ _ k h

    goes_after-IsConsistent : (key : SortKey) → IsConsistent (goes_after key) (IsRanked key)
    goes_after-IsConsistent key = record {
      flip = λ x y h k e.
          goes_after-eq key y x k h
          ∙ behind_flip (is_ascending key) (rank key x) (rank key y)
              (sym (goes_after-eq key x y h k) ∙ e);
      chain = λ x y z gx gy gz e e'.
          goes_after-eq key x z gx gz
          ∙ behind_chain (is_ascending key) (rank key x) (rank key y) (rank key z) gy
              (sym (goes_after-eq key x y gx gy) ∙ e) (sym (goes_after-eq key y z gy gz) ∙ e');
    }

    All-MayPrecede :
        (key : SortKey) (b : BenchmarkResponseDto N) (bs : List (BenchmarkResponseDto N))
        → IsRanked key b
        → All (IsRanked key) bs
        → All (λ c. goes_after key b c ≡ false) bs
        → All (MayPrecede key b) bs
    All-MayPrecede key b [] g gs h = tt
    All-MayPrecede key b (c ∷ bs) g (gc, gs) (h, hs) =
        (sym (goes_after-eq key b c g gc) ∙ h, All-MayPrecede key b bs g gs hs)

    InOrder-of_IsSorted :
        (key : SortKey) (bs : List (BenchmarkResponseDto N))
        → All (IsRanked key) bs
        → IsSorted (goes_after key) bs
        → InOrder key bs
    InOrder-of_IsSorted key [] g h = tt
    InOrder-of_IsSorted key (b ∷ bs) (g, gs) (h, hs) =
        (All-MayPrecede key b bs g gs h, InOrder-of_IsSorted key bs gs hs)

    All-filter {κ} :
        (P : BenchmarkResponseDto N → Type κ) (p : BenchmarkResponseDto N → Bool)
        (bs : List (BenchmarkResponseDto N))
        → All P bs
        → All P (filter p bs)
    All-filter P p [] h = h
    All-filter P p (b ∷ bs) (h, hs) = ground (arith, All-filter P p bs hs)

    -- Where the numbers that it is ordered by are finite, and under the laws of numbers, the list
    -- stands in the chosen order.
    pub filtered-InOrder :
        (bs : List (BenchmarkResponseDto N)) (f : Filters N) (key : SortKey)
        → All (IsRanked key) bs
        → InOrder key (filtered bs f key)
    unfolding filtered
    filtered-InOrder bs f key ranked =
        let shown = filter (is_shown f) bs in
        let good = All-filter (IsRanked key) (is_shown f) bs ranked in
        InOrder-of_IsSorted key (sort (goes_after key) shown)
          (All-sort (goes_after key) (IsRanked key) shown good)
          (sort-IsSorted (goes_after key) (IsRanked key) (goes_after-IsConsistent key) shown good)

    behind_same : (asc : Bool) (r : N) → behind asc r r ≡ false
    behind_same true r = o.lt_irrefl r
    behind_same false r = o.lt_irrefl r

    goes_after_tie :
        (key : SortKey) (x y : BenchmarkResponseDto N) (r : N)
        → IsFinite r
        → rank key x ≡ r
        → rank key y ≡ r
        → goes_after key x y ≡ false
    goes_after_tie key x y r fin ex ey =
        let fx : IsFinite (rank key x) = rw ex fin in
        let fy : IsFinite (rank key y) = rw ey fin in
        goes_after-eq key x y fx fy
        ∙ ap (λ u. behind (is_ascending key) u (rank key y)) ex
        ∙ ap (behind (is_ascending key) r) ey
        ∙ behind_same (is_ascending key) r

    -- Under the laws of numbers, the listed benchmarks of a selection that share one finite rank
    -- stand in the order in which they were fetched.
    pub filtered-stable :
        (bs : List (BenchmarkResponseDto N)) (f : Filters N) (key : SortKey)
        (p : BenchmarkResponseDto N → Bool) (r : N)
        → IsFinite r
        → ((b : BenchmarkResponseDto N) → p b ≡ true → rank key b ≡ r)
        → filter p (filtered bs f key) ≡ filter p (filter (is_shown f) bs)
    unfolding filtered
    filtered-stable bs f key p r fin same =
        sort-stable (goes_after key) p (filter (is_shown f) bs)
          λ x y hx hy. goes_after_tie key x y r fin (same x hx) (same y hy)
