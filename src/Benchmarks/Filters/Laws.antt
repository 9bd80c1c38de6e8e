-- ===== src/Benchmarks/Filters/Laws.antt =====
-- The predicate of the benchmark list, against what the filters mean.
use mathlib.Core.Option
use mathlib.Core.Option.{some-injective}
use mathlib.Core.Path.{subst}
use build_a_computer.Base.{
  ◌≡◌, refl, sym, ◌↔◌, ◌⊎◌, inl, inr, Bool, true, false, not, Option, none, some, List, [], ◌∷◌,
  arith, if◌then◌else◌, any, In,
}
use build_a_computer.Base.Strings.{JsString, str_eq, str_eq_iff}
use build_a_computer.Base.Number.{JsNumber}
use build_a_computer.Benchmarks.{BenchmarkResponseDto}
use build_a_computer.Benchmarks.Filters.{Filters, Facet, wanted, rejects, is_shown}

-- The value of a benchmark that a facet is about; a missing part has none.
abbrev pub value_of : {N : Type 0} → BenchmarkResponseDto N → Facet → Option JsString
value_of b Facet.gpu_vendors = Option.map (λ g. g.brand) b.gpu
value_of b Facet.gpu_series = Option.map (λ g. g.series) b.gpu
value_of b Facet.gpu_memory_gen = Option.map (λ g. g.memory_gen) b.gpu
value_of b Facet.cpu_vendors = Option.map (λ c. c.brand) b.cpu
value_of b Facet.cpu_family = Option.map (λ c. c.family) b.cpu
value_of b Facet.cpu_socket = Option.map (λ c. c.socket) b.cpu
value_of b Facet.ram_ddr = Option.map (λ r. r.ddr) b.ram
value_of b Facet.ram_brand = Option.map (λ r. r.brand) b.ram
value_of b Facet.games = some b.game_id
value_of b Facet.graphics_qualities = some b.graphics_quality

-- Nothing is asked for, or the value is there and is asked for.
abbrev pub Selects : List JsString → Option JsString → Type 0
Selects ws value = (ws ≡ []) ⊎ ((v : JsString) × (value ≡ some v) × In v ws)

module _ {N : Type 0} ⦃d : JsNumber N⦄ where
  pub record Passes (f : Filters N) (b : BenchmarkResponseDto N) : Type 0 where
    pub facets : (k : Facet) → Selects (wanted f k) (value_of b k)
    pub resolution : (f.resolutions ≡ []) ⊎ (any (d.same b.resolution) f.resolutions ≡ true)
    pub fps : d.lt b.avg_fps f.min_avg_fps ≡ false

pub any-str_eq : (v : JsString) (ws : List JsString) → (any (str_eq v) ws ≡ true) ↔ In v ws
any-str_eq v [] = ground arith
any-str_eq v (w ∷ ws) = ground (arith, str_eq_iff v w, any-str_eq v ws)

not-eq-false : (b : Bool) → (not b ≡ false) ↔ (b ≡ true)
not-eq-false b = ground arith

rejects-Selects :
    (ws : List JsString) (value : Option JsString)
    → (rejects str_eq ws value ≡ false) ↔ Selects ws value
unfolding rejects
rejects-Selects [] value = (λ _. inl refl, λ _. refl)
rejects-Selects (w ∷ ws) none = ground arith
rejects-Selects (w ∷ ws) (some v) = (
  λ h. inr (v, refl, (any-str_eq v (w ∷ ws)).0 ((not-eq-false _).0 h)),
  λ h. (not-eq-false _).1 ((any-str_eq v (w ∷ ws)).1 (In-of_Selects h)),
)
  where
    In-of_Selects : Selects (w ∷ ws) (some v) → In v (w ∷ ws)
    In-of_Selects (inl e) = cc
    In-of_Selects (inr (u, e, i)) = subst (λ u. In u (w ∷ ws)) (sym (some-injective _ _ e)) i

rejects-resolution :
    {N : Type 0} (same : N → N → Bool) (rs : List N) (r : N)
    → (rejects same rs (some r) ≡ false) ↔ ((rs ≡ []) ⊎ (any (same r) rs ≡ true))
unfolding rejects
rejects-resolution same [] r = (λ _. inl refl, λ _. refl)
rejects-resolution same (s ∷ rs) r = ground arith

unless_iff :
    (b : Bool) {x : Bool} {P Q : Type 0}
    → ((b ≡ false) ↔ P)
    → ((x ≡ true) ↔ Q)
    → ((if b then false else x) ≡ true) ↔ (P × Q)
unless_iff true p q = (λ h. cc, λ h. cc (p.1 h.0))
unless_iff false p q = (λ h. (p.0 refl, q.0 h), λ h. q.1 h.1)

module _ {N : Type 0} ⦃d : JsNumber N⦄ (f : Filters N) (b : BenchmarkResponseDto N) where
  facet_iff :
      (k : Facet)
      → (rejects str_eq (wanted f k) (value_of b k) ≡ false) ↔ Selects (wanted f k) (value_of b k)
  facet_iff k = rejects-Selects (wanted f k) (value_of b k)

  slow_iff :
      ((if d.lt b.avg_fps f.min_avg_fps then false else true) ≡ true)
      ↔ (d.lt b.avg_fps f.min_avg_fps ≡ false)
  slow_iff = ground arith

  abbrev S : Facet → Type 0
  S k = Selects (wanted f k) (value_of b k)

  abbrev Tests : Type 0
  Tests =
      (S Facet.gpu_vendors
        × (S Facet.gpu_series
            × (S Facet.gpu_memory_gen
                × (S Facet.cpu_vendors
                    × (S Facet.cpu_family
                        × (S Facet.cpu_socket
                            × (S Facet.ram_ddr
                                × (S Facet.ram_brand
                                    × (S Facet.games
                                        × (S Facet.graphics_qualities
                                            × (((f.resolutions ≡ [])
                                                  ⊎ (any (d.same b.resolution) f.resolutions
                                                      ≡ true))
                                                × (d.lt b.avg_fps f.min_avg_fps ≡ false))))))))))))

  -- The twelve tests in the order of the source.
  tests_iff : (is_shown f b ≡ true) ↔ Tests
  unfolding is_shown
  tests_iff = unless_iff _ (facet_iff Facet.gpu_vendors) (
      unless_iff _ (facet_iff Facet.gpu_series) (
        unless_iff _ (facet_iff Facet.gpu_memory_gen) (
          unless_iff _ (facet_iff Facet.cpu_vendors) (
            unless_iff _ (facet_iff Facet.cpu_family) (
              unless_iff _ (facet_iff Facet.cpu_socket) (
                unless_iff _ (facet_iff Facet.ram_ddr) (
                  unless_iff _ (facet_iff Facet.ram_brand) (
                    unless_iff _ (facet_iff Facet.games) (
                      unless_iff _ (facet_iff Facet.graphics_qualities) (
                        unless_iff _ (rejects-resolution d.same f.resolutions b.resolution)
                          slow_iff))))))))))

  facets_of : Tests → (k : Facet) → S k
  facets_of t Facet.gpu_vendors = t.0
  facets_of t Facet.gpu_series = t.1.0
  facets_of t Facet.gpu_memory_gen = t.1.1.0
  facets_of t Facet.cpu_vendors = t.1.1.1.0
  facets_of t Facet.cpu_family = t.1.1.1.1.0
  facets_of t Facet.cpu_socket = t.1.1.1.1.1.0
  facets_of t Facet.ram_ddr = t.1.1.1.1.1.1.0
  facets_of t Facet.ram_brand = t.1.1.1.1.1.1.1.0
  facets_of t Facet.games = t.1.1.1.1.1.1.1.1.0
  facets_of t Facet.graphics_qualities = t.1.1.1.1.1.1.1.1.1.0

  Passes-of : Tests → Passes f b
  Passes-of t = record {
    facets = facets_of t;
    resolution = t.1.1.1.1.1.1.1.1.1.1.0;
    fps = t.1.1.1.1.1.1.1.1.1.1.1;
  }

  tests_of : Passes f b → Tests
  tests_of p = (
    p.facets Facet.gpu_vendors,
    (
      p.facets Facet.gpu_series,
      (
        p.facets Facet.gpu_memory_gen,
        (
          p.facets Facet.cpu_vendors,
          (
            p.facets Facet.cpu_family,
            (
              p.facets Facet.cpu_socket,
              (
                p.facets Facet.ram_ddr,
                (
                  p.facets Facet.ram_brand,
                  (
                    p.facets Facet.games,
                    (p.facets Facet.graphics_qualities, (p.resolution, p.fps)),
                  ),
                ),
              ),
            ),
          ),
        ),
      ),
    ),
  )

-- A benchmark is listed exactly when every facet of its parts is asked for or left open, so is its
-- resolution, and its average is not below the wanted one.
pub is_shown_iff :
    {N : Type 0} ⦃d : JsNumber N⦄ (f : Filters N) (b : BenchmarkResponseDto N)
    → (is_shown f b ≡ true) ↔ Passes f b
is_shown_iff f b =
    (λ h. Passes-of f b ((tests_iff f b).0 h), λ p. (tests_iff f b).1 (tests_of f b p))
