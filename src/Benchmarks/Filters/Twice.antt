-- ===== src/Benchmarks/Filters/Twice.antt =====
-- A box of filter-panel.tsx that is ticked twice.
use mathlib.Core.Path.{subst}
use build_a_computer.Base.{
  ◌≡◌, refl, sym, ◌∙◌, ◌≢◌, ◌↔◌, ◌⊎◌, inl, inr, Bool, true, false, Option, List, [], ◌∷◌,
  Bool-cases, any, In,
}
use build_a_computer.Base.Strings.{JsString, str_eq, str_eq_iff}
use build_a_computer.Base.Number.{JsNumber}
use build_a_computer.Benchmarks.{BenchmarkResponseDto}
use build_a_computer.Benchmarks.Filters.{Filters, Facet, wanted, toggle_value, toggle, is_shown}
use build_a_computer.Benchmarks.Filters.Laws.{Passes, Selects, value_of, is_shown_iff, any-str_eq}
use build_a_computer.Benchmarks.Filters.Toggling.{
  toggle_value_iff, wanted-toggle, wanted-toggle_ne, toggle_rest, Facet-discrete,
}

-- The same values are asked for.
SameValues : List JsString → List JsString → Type 0
SameValues xs ys = (w : JsString) → In w xs ↔ In w ys

eq-nil_of_SameValues : (xs ys : List JsString) → SameValues xs ys → xs ≡ [] → ys ≡ []
unfolding SameValues
eq-nil_of_SameValues xs [] h e = refl
eq-nil_of_SameValues xs (y ∷ ys) h e = absurd (subst (In y) e ((h y).1 (inl refl)))

Selects-SameValues :
    (xs ys : List JsString) (value : Option JsString)
    → SameValues xs ys
    → Selects xs value
    → Selects ys value
unfolding SameValues
Selects-SameValues xs ys value h (inl e) = inl (eq-nil_of_SameValues xs ys h e)
Selects-SameValues xs ys value h (inr (v, e, i)) = inr (v, e, (h v).0 i)

In-dec : (w : JsString) (ws : List JsString) → In w ws ⊎ (¬ In w ws)
In-dec w ws = elim (Bool-cases (any (str_eq w) ws)) [
  | inl e ↦ inl ((any-str_eq w ws).0 e)
  | inr e ↦ inr (λ i. cc (e, (any-str_eq w ws).1 i))
]

toggle_value_twice :
    (v : JsString) (ws : List JsString)
    → SameValues (toggle_value str_eq str_eq v (toggle_value str_eq str_eq v ws)) ws
unfolding SameValues
toggle_value_twice v ws w =
    let once = toggle_value str_eq str_eq v ws in
    elim (Bool-cases (str_eq w v)) [
      | inl e ↦
          let same = (str_eq_iff w v).0 e in
          let (lost, kept) = (toggle_value_iff v w once).0 same in
          let (out, back) = (toggle_value_iff v w ws).0 same in
          (
            λ i. elim (In-dec w ws) [ inl j ↦ j | inr n ↦ absurd (lost i (back n)) ],
            λ i. kept (λ j. out j i),
          )
      | inr e ↦
          let other : w ≢ v = λ p. cc (e, (str_eq_iff w v).1 p) in
          let first = (toggle_value_iff v w ws).1 other in
          let again = (toggle_value_iff v w once).1 other in
          (λ i. first.0 (again.0 i), λ i. again.1 (first.1 i))
    ]

module _ {N : Type 0} (f : Filters N) (k : Facet) (v : JsString) where
  abbrev twice : Filters N
  twice = toggle k v (toggle k v f)

  facets-toggle_twice : (j : Facet) → SameValues (wanted twice j) (wanted f j)
  unfolding SameValues
  facets-toggle_twice j = elim (Facet-discrete k j) [
    | yes e ↦
        subst (λ (i : Facet). SameValues (wanted twice i) (wanted f i)) e
          (rw (wanted-toggle (toggle k v f) k v, wanted-toggle f k v)
            (toggle_value_twice v (wanted f k)))
    | no n ↦ λ w.
        rw (wanted-toggle_ne (toggle k v f) k j v n, wanted-toggle_ne f k j v n) (λ i. i, λ i. i)
  ]

  resolutions_twice : twice.resolutions ≡ f.resolutions
  resolutions_twice = (toggle_rest (toggle k v f) k v).0 ∙ (toggle_rest f k v).0

  min_avg_fps_twice : twice.min_avg_fps ≡ f.min_avg_fps
  min_avg_fps_twice = (toggle_rest (toggle k v f) k v).1 ∙ (toggle_rest f k v).1

SameValues-symm : (xs ys : List JsString) → SameValues xs ys → SameValues ys xs
unfolding SameValues
SameValues-symm xs ys h w = ((h w).1, (h w).0)

-- Filters that ask for the same values show the same benchmarks.
Passes-congr :
    {N : Type 0} ⦃d : JsNumber N⦄ (f g : Filters N) (b : BenchmarkResponseDto N)
    → ((j : Facet) → SameValues (wanted f j) (wanted g j))
    → f.resolutions ≡ g.resolutions
    → f.min_avg_fps ≡ g.min_avg_fps
    → Passes f b
    → Passes g b
Passes-congr ⦃d⦄ f g b h er em p = record {
  facets = λ j. Selects-SameValues (wanted f j) (wanted g j) (value_of b j) (h j) (p.facets j);
  resolution = subst (λ rs. (rs ≡ []) ⊎ (any (d.same b.resolution) rs ≡ true)) er p.resolution;
  fps = subst (λ m. d.lt b.avg_fps m ≡ false) em p.fps;
}

bool_ext : (a b : Bool) → ((a ≡ true) ↔ (b ≡ true)) → a ≡ b
bool_ext true b h = sym (h.0 refl)
bool_ext false true h = h.1 refl
bool_ext false false h = refl

-- Ticking a box twice shows the list as it was.
is_shown-toggle_twice :
    {N : Type 0} ⦃d : JsNumber N⦄ (f : Filters N) (k : Facet) (v : JsString)
    (b : BenchmarkResponseDto N)
    → is_shown (toggle k v (toggle k v f)) b ≡ is_shown f b
is_shown-toggle_twice f k v b =
    let same = facets-toggle_twice f k v in
    let back = λ (j : Facet). SameValues-symm (wanted (twice f k v) j) (wanted f j) (same j) in
    let er = resolutions_twice f k v in
    let em = min_avg_fps_twice f k v in
    bool_ext (is_shown (twice f k v) b) (is_shown f b) (
      λ h.
          (is_shown_iff f b).1
            (Passes-congr (twice f k v) f b same er em ((is_shown_iff (twice f k v) b).0 h)),
      λ h.
          (is_shown_iff (twice f k v) b).1
            (Passes-congr f (twice f k v) b back (sym er) (sym em) ((is_shown_iff f b).0 h)),
    )
