-- ===== src/Benchmarks/Options.antt =====
-- The choices that the filter panel offers: `uniqueFrom` and `deriveFilterOptions` of
-- frontend/src/features/benchmark/components/filters/filter-types.ts.
pub mod Laws
pub mod Choices
use mathlib.Core.Option
use build_a_computer.Base.{
  Bool, true, false, Option, none, some, List, [], ◌∷◌, ◌++◌, if◌then◌else◌, map, any, or_else,
}
use build_a_computer.Base.Strings.{JsString, str_eq}
use build_a_computer.Base.Number.{JsNumber}
use build_a_computer.Base.Sort
use build_a_computer.Benchmarks.{BenchmarkResponseDto, GameResponseDto}
use build_a_computer.Benchmarks.Listing.{game_name_by_id}

-- `Array.from(new Set(arr))`: the first occurrences, in their order. `same` is SameValueZero, and
-- `seen` what the set holds already.
unfoldable pub unique_from {ℓ} : {A : Type ℓ} → (A → A → Bool) → List A → List A → List A
unique_from same seen [] = []
unique_from same seen (x ∷ xs) =
    let old = any (same x) seen in
    let rest = unique_from same (if old then seen else (seen ++ x ∷ [])) xs in
    if old then rest else x ∷ rest

-- `values.filter((v) => Boolean(v))`: neither `undefined` nor "".
unfoldable pub truthy : List (Option JsString) → List JsString
truthy [] = []
truthy (none ∷ vs) = truthy vs
truthy (some [] ∷ vs) = truthy vs
truthy (some (c ∷ s) ∷ vs) = (c ∷ s) ∷ truthy vs

pub record FilterOptions (N : Type 0) : Type 0 where
  pub gpu_vendors : List JsString
  pub gpu_series : List JsString
  pub gpu_memory_gen : List JsString
  pub cpu_vendors : List JsString
  pub cpu_family : List JsString
  pub cpu_socket : List JsString
  pub ram_ddr : List JsString
  pub ram_brand : List JsString
  -- The id of a game and its name.
  pub games : List (JsString × JsString)
  pub graphics_qualities : List JsString
  pub resolutions : List N
  pub max_avg_fps : N

module _ {N : Type 0} ⦃d : JsNumber N⦄ where
  -- `Math.max(...values)` for a value and more.
  unfoldable pub max_of : N → List N → N
  max_of x [] = x
  max_of x (y ∷ ys) = max_of (d.max x y) ys

  -- `benchmarks.length > 0 ? Math.max(...) : 0`.
  unfoldable pub max_avg_fps : List (BenchmarkResponseDto N) → N
  unfolding max_of
  max_avg_fps [] = d.of_ℕ 0
  max_avg_fps (b ∷ bs) = max_of b.avg_fps (map (λ c. c.avg_fps) bs)

  unfoldable pub derive_filter_options :
      List (BenchmarkResponseDto N) → List (GameResponseDto N) → FilterOptions N
  derive_filter_options benchmarks games = record {
    gpu_vendors =
        unique_from str_eq [] (truthy (map (λ b. Option.map (λ g. g.brand) b.gpu) benchmarks));
    gpu_series =
        unique_from str_eq [] (truthy (map (λ b. Option.map (λ g. g.series) b.gpu) benchmarks));
    gpu_memory_gen =
        unique_from str_eq [] (truthy (map (λ b. Option.map (λ g. g.memory_gen) b.gpu) benchmarks));
    cpu_vendors =
        unique_from str_eq [] (truthy (map (λ b. Option.map (λ c. c.brand) b.cpu) benchmarks));
    cpu_family =
        unique_from str_eq [] (truthy (map (λ b. Option.map (λ c. c.family) b.cpu) benchmarks));
    cpu_socket =
        unique_from str_eq [] (truthy (map (λ b. Option.map (λ c. c.socket) b.cpu) benchmarks));
    ram_ddr = unique_from str_eq [] (truthy (map (λ b. Option.map (λ r. r.ddr) b.ram) benchmarks));
    ram_brand =
        unique_from str_eq [] (truthy (map (λ b. Option.map (λ r. r.brand) b.ram) benchmarks));
    games =
        map (λ id. (id, or_else (game_name_by_id games id) id))
          (unique_from str_eq [] (map (λ b. b.game_id) benchmarks));
    graphics_qualities = unique_from str_eq [] (map (λ b. b.graphics_quality) benchmarks);
    resolutions =
        Sort.sort (λ a b. d.lt (d.of_ℕ 0) (d.sub a b))
          (unique_from d.same [] (map (λ b. b.resolution) benchmarks));
    max_avg_fps = max_avg_fps benchmarks;
  }
