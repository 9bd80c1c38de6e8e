-- ===== src/Examples/Benchmarks.antt =====
-- Two benchmarks.
use build_a_computer.Base.{
  ℕ, arith, ◌≡◌, refl, ◌↔◌, inl, inr, Bool, true, false, Option, none, some, List, [], ◌∷◌, In,
  filter, ◌==◌,
}
use build_a_computer.Base.Strings.{JsString, codes}
use build_a_computer.Benchmarks.{BenchmarkResponseDto, GpuResponseDto, GameResponseDto}
use build_a_computer.Benchmarks.Filters.{Filters, Facet, toggle, is_shown, default_filters}
use build_a_computer.Benchmarks.Filters.Laws.{Passes, is_shown_iff}
use build_a_computer.Benchmarks.Options.{derive_filter_options, max_avg_fps}
use build_a_computer.Benchmarks.Options.Laws.{offered, In-offered}
use build_a_computer.Benchmarks.Options.Choices.{facet_box, tick, start, offered-shown}
use build_a_computer.Benchmarks.Listing.{avg_fps_desc, filtered}
use build_a_computer.Benchmarks.Listing.Laws.{InOrder, filtered-InOrder}
use build_a_computer.Examples.Numbers.{naturals, naturals-IsOrdered}

abbrev card : GpuResponseDto ℕ
card = record {
  id = codes "g1";
  brand = codes "NVIDIA";
  family = codes "RTX";
  series = codes "4070";
  memory_amount = 12;
  memory_gen = codes "GDDR6X";
  cores = 5888;
  pci_express = 4;
  recommended_power = 650;
  avg_price = 600;
  release_date = codes "2023";
  img = none;
  created_at = codes "2024";
  updated_at = none;
}

abbrev measured : JsString → Option (GpuResponseDto ℕ) → ℕ → BenchmarkResponseDto ℕ
measured id gpu fps = record {
  id = id;
  title = codes "run";
  resolution = 1440;
  graphics_quality = codes "high";
  cpu = none;
  gpu = gpu;
  ram = none;
  avg_fps = fps;
  min_fps = 30;
  max_fps = 144;
  game_id = codes "x";
  user_id = codes "u1";
  score = none;
  created_at = codes "2024";
  updated_at = none;
}

abbrev fast : BenchmarkResponseDto ℕ
fast = measured (codes "b1") (some card) 90

abbrev slow : BenchmarkResponseDto ℕ
slow = measured (codes "b2") none 45

abbrev runs : List (BenchmarkResponseDto ℕ)
runs = slow ∷ fast ∷ []

abbrev no_games : List (GameResponseDto ℕ)
no_games = []

abbrev filters : Filters ℕ
filters = toggle Facet.gpu_vendors (codes "NVIDIA") default_filters

is_shown_iff_example : (is_shown filters slow ≡ true) ↔ Passes filters slow
is_shown_iff_example = is_shown_iff filters slow

filtered-InOrder_example : InOrder avg_fps_desc (filtered runs default_filters avg_fps_desc)
filtered-InOrder_example =
    filtered-InOrder naturals-IsOrdered runs default_filters avg_fps_desc (refl, (refl, tt))

abbrev at_45 : BenchmarkResponseDto ℕ → Bool
at_45 b = b.avg_fps == 45

nvidia_offered :
    In (codes "NVIDIA") (offered (derive_filter_options runs no_games) Facet.gpu_vendors)
nvidia_offered =
    (In-offered runs no_games Facet.gpu_vendors (codes "NVIDIA")).1
      (fast, inr (inl refl), refl, λ _ e. cc e)

offered-shown_example :
    (b : BenchmarkResponseDto ℕ) × In b
      (filter (is_shown (tick (facet_box Facet.gpu_vendors (codes "NVIDIA")) start)) runs)
offered-shown_example =
    offered-shown runs no_games (facet_box Facet.gpu_vendors (codes "NVIDIA")) (λ x. ground arith)
      (refl, (refl, tt)) nvidia_offered

below_best : naturals.lt (max_avg_fps runs) 60 ≡ false
unfolding max_avg_fps
below_best = refl
