-- ===== src/Benchmarks/Creating.antt =====
-- The page that records a benchmark:
-- frontend/src/features/benchmark/components/create-benchmarks-page.tsx. `to_locale_string` is the method
-- of a number, and `to_lower_case` that of a string.
pub mod Laws
use build_a_computer.Base.{
  Bool, true, false, ◌||◌, Option, none, some, List, [], ◌∷◌, ◌++◌, map, if◌then◌else◌,
}
use build_a_computer.Base.Strings.{JsString, codes}
use Prim.Native.String.{String}
use build_a_computer.Base.Number.{JsNumber}
use build_a_computer.Api.{ApiResult}
use build_a_computer.Api.Endpoints.{Call}
use build_a_computer.Requests.{HookState}
use build_a_computer.Requests.Features.{request_create_benchmark}
use build_a_computer.Forms.{CreateBenchmarkFormValues, create_benchmark_schema}
use build_a_computer.Benchmarks.{CpuResponseDto, GpuResponseDto, RamResponseDto, GameResponseDto}

pub record CreateBenchmarkRequestDto (N : Type 0) : Type 0 where
  pub title : JsString
  pub resolution : N
  pub graphics_quality : JsString
  pub cpu_id : JsString
  pub gpu_id : JsString
  pub ram_id : JsString
  pub avg_fps : N
  pub min_fps : N
  pub max_fps : N
  pub game_id : JsString
  pub user_id : JsString
  pub score : Option N

abbrev pub empty_values : CreateBenchmarkFormValues
empty_values = record {
  title = [];
  gpu_id = [];
  cpu_id = [];
  ram_id = [];
  game_id = [];
  resolution = [];
  graphics_quality = [];
  avg_fps = [];
  min_fps = [];
  max_fps = [];
  score = some [];
}

pub record ComboboxOption : Type 0 where
  pub value : JsString
  pub label : JsString
  pub description : Option JsString

abbrev pub spaced : JsString → JsString → JsString
spaced a b = a ++ (codes " " ++ b)

module _ {N : Type 0} ⦃d : JsNumber N⦄ (to_locale_string : N → JsString) where
  -- ` · ~$…`.
  abbrev pub priced : N → JsString
  priced price = codes " " ++ (183 ∷ (codes " ~$" ++ to_locale_string price))

  unfoldable pub gpu_options : List (GpuResponseDto N) → List ComboboxOption
  gpu_options gpus =
      map
        (λ g. record {
          value = g.id;
          label = spaced g.brand (spaced g.family g.series);
          description = some (
              d.to_string g.memory_amount
              ++ (codes "GB "
                  ++ (spaced g.memory_gen (
                      183
                      ∷ (codes " "
                          ++ (to_locale_string g.cores
                              ++ (codes " cores" ++ priced g.avg_price)))))));
        })
        gpus

  unfoldable pub cpu_options : List (CpuResponseDto N) → List ComboboxOption
  cpu_options cpus =
      map
        (λ c. record {
          value = c.id;
          label = spaced c.brand (spaced c.family c.series);
          description = some (
              d.to_string c.cores
              ++ (codes "C/"
                  ++ (d.to_string c.threads
                      ++ (codes "T "
                          ++ (183
                              ∷ (codes " "
                                  ++ (d.to_string c.max_clock
                                      ++ (codes " GHz "
                                          ++ (183
                                              ∷ (codes " "
                                                  ++ (c.socket ++ priced c.avg_price)))))))))));
        })
        cpus

  unfoldable pub ram_options : List (RamResponseDto N) → List ComboboxOption
  ram_options rams =
      map
        (λ r. record {
          value = r.id;
          label =
              spaced r.brand
                (spaced r.series (d.to_string r.memory_amount ++ (codes "GB " ++ r.ddr)));
          description = some (d.to_string r.frequency_mhz ++ (codes " MHz" ++ priced r.avg_price));
        })
        rams

unfoldable pub game_options : {N : Type 0} → List (GameResponseDto N) → List ComboboxOption
game_options games = map (λ g. record { value = g.id; label = g.name; description = none }) games

unfoldable pub quality_options : (JsString → JsString) → List ComboboxOption
quality_options to_lower_case =
    map (λ q. record { value = to_lower_case q; label = q; description = none })
      (codes "Low" ∷ codes "Medium" ∷ codes "High" ∷ codes "Ultra" ∷ [])

-- ` · … × …`.
abbrev pub pixels : String → String → JsString
pixels w h =
    codes " " ++ (183 ∷ (codes " " ++ (codes w ++ (codes " " ++ (215 ∷ (codes " " ++ codes h))))))

unfoldable pub resolution_options : {N : Type 0} (d : JsNumber N) → List ComboboxOption
resolution_options d =
    (record {
      value = d.to_string (d.of_ℕ 1080);
      label = codes "1080p" ++ pixels "1920" "1080";
      description = none;
    })
    ∷ (record {
      value = d.to_string (d.of_ℕ 1440);
      label = codes "1440p" ++ pixels "2560" "1440";
      description = none;
    })
    ∷ (record {
      value = d.to_string (d.of_ℕ 2160);
      label = codes "4K" ++ pixels "3840" "2160";
      description = none;
    })
    ∷ []

-- `submitted` and the values of the form.
pub record CreatePage : Type 0 where
  pub submitted : Bool
  pub values : CreateBenchmarkFormValues

unfoldable pub handle_another : CreatePage → CreatePage
handle_another p = record { submitted = false; values = empty_values }

module _ {N : Type 0} (d : JsNumber N) where
  -- `data.score ? Number(data.score) : undefined`.
  abbrev pub score_of : Option JsString → Option N
  score_of none = none
  score_of (some []) = none
  score_of (some (c ∷ s)) = some (d.of_string (c ∷ s))

  unfoldable pub payload_of : JsString → CreateBenchmarkFormValues → CreateBenchmarkRequestDto N
  payload_of user_id v = record {
    title = v.title;
    gpu_id = v.gpu_id;
    cpu_id = v.cpu_id;
    ram_id = v.ram_id;
    game_id = v.game_id;
    resolution = d.of_string v.resolution;
    graphics_quality = v.graphics_quality;
    avg_fps = d.of_string v.avg_fps;
    min_fps = d.of_string v.min_fps;
    max_fps = d.of_string v.max_fps;
    score = score_of v.score;
    user_id = user_id;
  }

  module _ {S T : Type 0} (send : Call (CreateBenchmarkRequestDto N) → S → ApiResult N T × S) where
    -- `onSubmit`, with the id of the user, which is missing until the token is read, run to its end.
    unfoldable pub on_submit :
        Option JsString
        → CreatePage
        → HookState N (Unit {0})
        → S
        → CreatePage × HookState N (Unit {0}) × S
    unfolding request_create_benchmark payload_of
    on_submit none p h s = (p, h, s)
    on_submit (some []) p h s = (p, h, s)
    on_submit (some (c ∷ id)) p h s =
        let (settled, t, is_success) =
          request_create_benchmark send (payload_of (c ∷ id) p.values) h s in
        (record p { submitted = is_success || p.submitted }, settled, t)

    -- `handleSubmit(onSubmit)`: the values that the schema refuses are not passed on.
    unfoldable pub handle_submit :
        Option JsString
        → CreatePage
        → HookState N (Unit {0})
        → S
        → CreatePage × HookState N (Unit {0}) × S
    unfolding on_submit
    handle_submit user_id p h s =
        let done = on_submit user_id p h s in
        if create_benchmark_schema d p.values then done else (p, h, s)
