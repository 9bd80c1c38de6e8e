-- ===== src/Examples/Creating.antt =====
-- A benchmark that is typed into the form and sent.
use build_a_computer.Base.{ℕ, false, Option, some, List, [], ◌∷◌}
use build_a_computer.Base.Strings.{JsString, codes}
use build_a_computer.Api.{ApiResult, ok}
use build_a_computer.Api.Endpoints.{Call}
use build_a_computer.Forms.{CreateBenchmarkFormValues}
use build_a_computer.Benchmarks.Creating.{CreateBenchmarkRequestDto, CreatePage}

abbrev run : CreateBenchmarkFormValues
run = record {
  title = codes "First run";
  gpu_id = codes "g";
  cpu_id = codes "c";
  ram_id = codes "r";
  game_id = codes "e";
  resolution = codes "1440";
  graphics_quality = codes "high";
  avg_fps = codes "90";
  min_fps = codes "60";
  max_fps = codes "120";
  score = some [];
}

abbrev page : CreatePage
page = record { submitted = false; values = run }

-- A service that keeps the calls and accepts them.
abbrev send :
    Call (CreateBenchmarkRequestDto ℕ)
    → List (Call (CreateBenchmarkRequestDto ℕ))
    → ApiResult ℕ (Unit {0}) × List (Call (CreateBenchmarkRequestDto ℕ))
send call calls = (ok tt, call ∷ calls)

abbrev user : Option JsString
user = some (codes "u1")
