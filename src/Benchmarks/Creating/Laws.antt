-- ===== src/Benchmarks/Creating/Laws.antt =====
-- The benchmarks that the page of Benchmarks/Creating.antt sends.
use build_a_computer.Base.{ℕ, ◌≤◌, ◌≡◌, ◌⊎◌, true, false, ◌||◌, Option, none, some, [], ◌∷◌, length}
use build_a_computer.Base.Strings.{JsString}
use build_a_computer.Base.Number.{JsNumber}
use build_a_computer.Api.{ApiResult}
use build_a_computer.Api.Endpoints.{Call, create_benchmark}
use build_a_computer.Requests.{HookState, succeeded}
use build_a_computer.Forms.{CreateBenchmarkFormValues, create_benchmark_schema}
use build_a_computer.Benchmarks.Creating.{CreateBenchmarkRequestDto, CreatePage}

module _ {N : Type 0} (d : JsNumber N) where
  abbrev IsScore : Option N → Type 0
  IsScore none = Unit
  IsScore (some x) = (d.is_nan x ≡ false) × (d.le (d.of_ℕ 0) x ≡ true)

  -- A benchmark that the service can record: its title fits, its parts and its game are chosen, its frame
  -- rates are positive numbers in order, and a score that is given is not negative.
  pub IsRecordable : CreateBenchmarkRequestDto N → Type 0
  IsRecordable b =
      ((1 ≤ length b.title) × (length b.title ≤ 255))
      × ((1 ≤ length b.gpu_id)
          × (1 ≤ length b.cpu_id)
          × (1 ≤ length b.ram_id)
          × (1 ≤ length b.game_id))
      × (1 ≤ length b.graphics_quality)
      × ((d.lt (d.of_ℕ 0) b.min_fps ≡ true)
          × (d.le b.min_fps b.avg_fps ≡ true)
          × (d.le b.avg_fps b.max_fps ≡ true))
      × IsScore b.score

  -- The benchmark of the form's values: each text as it was typed, each number as it reads, no score where
  -- none was typed, and the id of the user.
  pub record IsTyped (v : CreateBenchmarkFormValues) (b : CreateBenchmarkRequestDto N)
      : Type 0 where
    pub title : b.title ≡ v.title
    pub gpu : b.gpu_id ≡ v.gpu_id
    pub cpu : b.cpu_id ≡ v.cpu_id
    pub ram : b.ram_id ≡ v.ram_id
    pub game : b.game_id ≡ v.game_id
    pub quality : b.graphics_quality ≡ v.graphics_quality
    pub resolution : b.resolution ≡ d.of_string v.resolution
    pub average : b.avg_fps ≡ d.of_string v.avg_fps
    pub least : b.min_fps ≡ d.of_string v.min_fps
    pub greatest : b.max_fps ≡ d.of_string v.max_fps
    pub unscored : (v.score ≡ none) ⊎ (v.score ≡ some []) → b.score ≡ none
    pub scored :
        (c : ℕ) (s : JsString) → v.score ≡ some (c ∷ s) → b.score ≡ some (d.of_string (c ∷ s))

  -- The user is not known, or the form is not accepted.
  abbrev pub IsRefused : Option JsString → CreateBenchmarkFormValues → Type 0
  IsRefused user_id v =
      (user_id ≡ none) ⊎ ((user_id ≡ some []) ⊎ (create_benchmark_schema d v ≡ false))

  module _ {S T : Type 0} (send : Call (CreateBenchmarkRequestDto N) → S → ApiResult N T × S) where
    -- One call was made, which creates this benchmark, and the page is shown as submitted exactly when the
    -- call succeeded or it was shown so before.
    abbrev pub IsSent :
        CreateBenchmarkRequestDto N
        → CreatePage
        → S
        → CreatePage × HookState N (Unit {0}) × S
        → Type 0
    IsSent b p s r =
        (r.2 ≡ (send (create_benchmark b) s).1)
        × (r.0.submitted ≡ (succeeded (send (create_benchmark b) s).0 || p.submitted))
