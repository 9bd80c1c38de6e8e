-- ===== src/Benchmarks/Filters.antt =====
-- The filters of the benchmark list: frontend/src/features/benchmark/components/filters/filter-types.ts
-- (the state), filter-panel.tsx (`toggle`, `reset` and the counts) and the predicate of
-- benchmarks-page.tsx.
pub mod Laws
pub mod Toggling
pub mod Twice
pub mod Clearing
use mathlib.Core.Option
use build_a_computer.Base.{
  ℕ, ◌+◌, Bool, true, false, not, ◌&&◌, ◌||◌, Option, none, some, List, [], ◌∷◌, ◌++◌,
  if◌then◌else◌, ltb, length, any, filter,
}
use build_a_computer.Base.Strings.{JsString, str_eq}
use build_a_computer.Base.Number.{JsNumber}
use build_a_computer.Benchmarks.{BenchmarkResponseDto}

pub record Filters (N : Type 0) : Type 0 where
  pub gpu_vendors : List JsString
  pub gpu_series : List JsString
  pub gpu_memory_gen : List JsString
  pub cpu_vendors : List JsString
  pub cpu_family : List JsString
  pub cpu_socket : List JsString
  pub ram_ddr : List JsString
  pub ram_brand : List JsString
  pub games : List JsString
  pub graphics_qualities : List JsString
  pub resolutions : List N
  pub min_avg_fps : N

abbrev pub fps_floor : {N : Type 0} ⦃d : JsNumber N⦄ → N
fps_floor ⦃d⦄ = d.of_ℕ 0

abbrev pub default_filters : {N : Type 0} ⦃d : JsNumber N⦄ → Filters N
default_filters = record {
  gpu_vendors = [];
  gpu_series = [];
  gpu_memory_gen = [];
  cpu_vendors = [];
  cpu_family = [];
  cpu_socket = [];
  ram_ddr = [];
  ram_brand = [];
  games = [];
  graphics_qualities = [];
  resolutions = [];
  min_avg_fps = fps_floor;
}

-- `xs.length && (!part || !xs.includes(value))`, where a missing part has no value.
unfoldable pub rejects {ℓ} : {A : Type ℓ} → (A → A → Bool) → List A → Option A → Bool
rejects same [] value = false
rejects same (x ∷ xs) none = true
rejects same (x ∷ xs) (some v) = not (any (same v) (x ∷ xs))

module _ {N : Type 0} ⦃d : JsNumber N⦄ where
  -- The callback of `benchmarks.filter`.
  unfoldable pub is_shown : Filters N → BenchmarkResponseDto N → Bool
  is_shown f b =
      if rejects str_eq f.gpu_vendors (Option.map (λ g. g.brand) b.gpu)
      then false
      else if rejects str_eq f.gpu_series (Option.map (λ g. g.series) b.gpu)
      then false
      else if rejects str_eq f.gpu_memory_gen (Option.map (λ g. g.memory_gen) b.gpu)
      then false
      else if rejects str_eq f.cpu_vendors (Option.map (λ c. c.brand) b.cpu)
      then false
      else if rejects str_eq f.cpu_family (Option.map (λ c. c.family) b.cpu)
      then false
      else if rejects str_eq f.cpu_socket (Option.map (λ c. c.socket) b.cpu)
      then false
      else if rejects str_eq f.ram_ddr (Option.map (λ r. r.ddr) b.ram)
      then false
      else if rejects str_eq f.ram_brand (Option.map (λ r. r.brand) b.ram)
      then false
      else if rejects str_eq f.games (some b.game_id)
      then false
      else if rejects str_eq f.graphics_qualities (some b.graphics_quality)
      then false
      else if rejects d.same f.resolutions (some b.resolution)
      then false
      else if d.lt b.avg_fps f.min_avg_fps
      then false
      else true

-- The keys of `Filters` whose values are lists of strings.
pub data Facet : Type 0 where
  gpu_vendors gpu_series gpu_memory_gen cpu_vendors cpu_family cpu_socket ram_ddr : Facet
  ram_brand games graphics_qualities : Facet

-- `current.includes(value) ? current.filter((v) => v !== value) : [...current, value]`.
unfoldable pub toggle_value {ℓ} :
    {A : Type ℓ} → (A → A → Bool) → (A → A → Bool) → A → List A → List A
toggle_value same eq value current =
    if any (same value) current
    then filter (λ v. not (eq v value)) current
    else (current ++ value ∷ [])

module _ {N : Type 0} where
  -- `filters[key]`.
  abbrev pub wanted : Filters N → Facet → List JsString
  wanted f Facet.gpu_vendors = f.gpu_vendors
  wanted f Facet.gpu_series = f.gpu_series
  wanted f Facet.gpu_memory_gen = f.gpu_memory_gen
  wanted f Facet.cpu_vendors = f.cpu_vendors
  wanted f Facet.cpu_family = f.cpu_family
  wanted f Facet.cpu_socket = f.cpu_socket
  wanted f Facet.ram_ddr = f.ram_ddr
  wanted f Facet.ram_brand = f.ram_brand
  wanted f Facet.games = f.games
  wanted f Facet.graphics_qualities = f.graphics_qualities

  -- `{ ...filters, [key]: next }`.
  abbrev pub with_wanted : Filters N → Facet → List JsString → Filters N
  with_wanted f Facet.gpu_vendors xs = record f { gpu_vendors = xs }
  with_wanted f Facet.gpu_series xs = record f { gpu_series = xs }
  with_wanted f Facet.gpu_memory_gen xs = record f { gpu_memory_gen = xs }
  with_wanted f Facet.cpu_vendors xs = record f { cpu_vendors = xs }
  with_wanted f Facet.cpu_family xs = record f { cpu_family = xs }
  with_wanted f Facet.cpu_socket xs = record f { cpu_socket = xs }
  with_wanted f Facet.ram_ddr xs = record f { ram_ddr = xs }
  with_wanted f Facet.ram_brand xs = record f { ram_brand = xs }
  with_wanted f Facet.games xs = record f { games = xs }
  with_wanted f Facet.graphics_qualities xs = record f { graphics_qualities = xs }

  unfoldable pub toggle : Facet → JsString → Filters N → Filters N
  unfolding toggle_value
  toggle key value f = with_wanted f key (toggle_value str_eq str_eq value (wanted f key))

module _ {N : Type 0} ⦃d : JsNumber N⦄ where
  unfoldable pub toggle_resolution : N → Filters N → Filters N
  unfolding toggle_value
  toggle_resolution r f = record f { resolutions = toggle_value d.same d.eq r f.resolutions }

  unfoldable pub reset : Filters N
  reset = default_filters

  abbrev pub gpu_count : Filters N → ℕ
  gpu_count f = length f.gpu_vendors + length f.gpu_series + length f.gpu_memory_gen

  abbrev pub cpu_count : Filters N → ℕ
  cpu_count f = length f.cpu_vendors + length f.cpu_family + length f.cpu_socket

  abbrev pub ram_count : Filters N → ℕ
  ram_count f = length f.ram_ddr + length f.ram_brand

  abbrev pub hardware_count : Filters N → ℕ
  hardware_count f = gpu_count f + cpu_count f + ram_count f

  unfoldable pub has_active_filters : Filters N → Bool
  has_active_filters f =
      ltb 0 (hardware_count f)
      || ltb 0 (length f.games)
      || ltb 0 (length f.graphics_qualities)
      || ltb 0 (length f.resolutions)
      || d.lt fps_floor f.min_avg_fps
