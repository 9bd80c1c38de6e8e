-- ===== src/Benchmarks/Format.antt =====
-- frontend/src/features/benchmark/components/benchmark-card/format.ts.
use mathlib.Core.Option
use build_a_computer.Base.{Option, none, some, [], ◌∷◌, ◌++◌, if◌then◌else◌, or_else}
use build_a_computer.Base.Strings.{JsString, codes, str_eq}
use build_a_computer.Base.Number.{JsNumber}
use build_a_computer.Benchmarks.{BenchmarkResponseDto, CpuResponseDto, GpuResponseDto}

module _ {N : Type 0} ⦃d : JsNumber N⦄ where
  unfoldable pub resolution_label : N → JsString
  resolution_label r =
      if d.le (d.of_ℕ 2160) r
      then codes "4K"
      else if d.le (d.of_ℕ 1440) r
      then codes "1440p"
      else codes "1080p"

  unfoldable pub system_price : BenchmarkResponseDto N → N
  system_price b =
      d.add
        (d.add (or_else (Option.map (λ g. g.avg_price) b.gpu) (d.of_ℕ 0))
          (or_else (Option.map (λ c. c.avg_price) b.cpu) (d.of_ℕ 0)))
        (or_else (Option.map (λ r. r.avg_price) b.ram) (d.of_ℕ 0))

  unfoldable pub fps_rgb : N → JsString
  fps_rgb fps =
      if d.lt fps (d.of_ℕ 30)
      then codes "185, 89, 89"
      else if d.lt fps (d.of_ℕ 60)
      then codes "191, 130, 71"
      else codes "85, 145, 102"

  unfoldable pub fps_color_style : N → JsString
  unfolding fps_rgb
  fps_color_style fps = codes "rgb(" ++ (fps_rgb fps ++ codes ")")

abbrev pub neutral_rgb : JsString
neutral_rgb = codes "120, 120, 128"

-- `to_upper` is `toUpperCase`.
module _ (to_upper : JsString → JsString) where
  unfoldable pub brand_rgb : Option JsString → JsString
  unfolding str_eq
  brand_rgb none = neutral_rgb
  brand_rgb (some []) = neutral_rgb
  brand_rgb (some (c ∷ s)) =
      let brand = to_upper (c ∷ s) in
      if str_eq brand (codes "INTEL")
      then codes "45, 70, 125"
      else if str_eq brand (codes "AMD")
      then codes "150, 59, 59"
      else if str_eq brand (codes "NVIDIA")
      then codes "46, 128, 76"
      else neutral_rgb

  unfoldable pub brand_gradient :
      {N : Type 0} → Option (GpuResponseDto N) → Option (CpuResponseDto N) → JsString
  unfolding brand_rgb
  brand_gradient gpu cpu =
      let left = brand_rgb (Option.map (λ g. g.brand) gpu) in
      let right = brand_rgb (Option.map (λ c. c.brand) cpu) in
      codes "linear-gradient(to right, rgba("
      ++ (left
          ++ (codes ", 0.16) 0%, rgba("
              ++ (left
                  ++ (codes ", 0.05) 30%, transparent 50%, rgba("
                      ++ (right
                          ++ (codes ", 0.05) 70%, rgba(" ++ (right ++ codes ", 0.16) 100%)")))))))
