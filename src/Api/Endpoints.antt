-- ===== src/Api/Endpoints.antt =====
-- The calls of the API modules, as the arguments that they pass to `api`: features/benchmark/api,
-- features/games/api, features/users/api, features/authentication/api and features/hardware/api of
-- frontend/src. A call without a payload has a `P` that is never given.
pub mod Laws
use build_a_computer.Base.{Option, none, some, ◌++◌, [], ◌∷◌, List}
use build_a_computer.Base.Strings.{JsString, codes}
use build_a_computer.Base.Strings.{join}
use build_a_computer.Base.Number.{JsNumber}
use build_a_computer.Api.{HttpMethod, get, post, patch, delete, ApiOptions}

pub record Call (P : Type 0) : Type 0 where
  pub endpoint : JsString
  pub options : ApiOptions P

abbrev pub without : {P : Type 0} → JsString → HttpMethod → Call P
without e m = record { endpoint = e; options = record { method = m; headers = []; payload = none } }

abbrev pub carrying : {P : Type 0} → JsString → HttpMethod → P → Call P
carrying e m p = record {
  endpoint = e;
  options = record { method = m; headers = []; payload = some p };
}

module _ {P : Type 0} where
  unfoldable pub create_benchmark : P → Call P
  create_benchmark dto = carrying (codes "benchmarks") post dto

  unfoldable pub get_benchmark : JsString → Call P
  get_benchmark id = without (codes "benchmarks/" ++ id) get

  unfoldable pub get_benchmarks : Call P
  get_benchmarks = without (codes "benchmarks") get

  unfoldable pub delete_benchmark : JsString → Call P
  delete_benchmark id = without (codes "benchmarks/" ++ id) delete

  unfoldable pub filter_benchmarks : P → Call P
  filter_benchmarks dto = carrying (codes "benchmarks/filter") post dto

  unfoldable pub get_cpus : Call P
  get_cpus = without (codes "hardware/cpus") get

  unfoldable pub get_gpus : Call P
  get_gpus = without (codes "hardware/gpus") get

  unfoldable pub get_rams : Call P
  get_rams = without (codes "hardware/rams") get

  unfoldable pub create_game : P → Call P
  create_game dto = carrying (codes "games") post dto

  unfoldable pub get_games : Call P
  get_games = without (codes "games") get

  unfoldable pub update_game : JsString → P → Call P
  update_game id dto = carrying (codes "games/" ++ id) patch dto

  unfoldable pub delete_game : JsString → Call P
  delete_game id = without (codes "games/" ++ id) delete

  unfoldable pub create_user : P → Call P
  create_user dto = carrying (codes "users") post dto

  unfoldable pub get_user : JsString → Call P
  get_user id = without (codes "users/" ++ id) get

  unfoldable pub get_users : Call P
  get_users = without (codes "users") get

  unfoldable pub delete_user : JsString → Call P
  delete_user id = without (codes "users/" ++ id) delete

  unfoldable pub update_user : JsString → P → Call P
  update_user id dto = carrying (codes "users/" ++ id) patch dto

  unfoldable pub sign_in : P → Call P
  sign_in dto = carrying (codes "auth/sign-in") post dto

  unfoldable pub sign_up : P → Call P
  sign_up dto = carrying (codes "auth/sign-up") post dto

  unfoldable pub forgot_password : P → Call P
  forgot_password dto = carrying (codes "auth/forgot-password") post dto

  unfoldable pub reset_password : P → Call P
  reset_password dto = carrying (codes "auth/reset-password") post dto

-- `createHardwareResourceApi(path)`.
pub record HardwareResourceApi (P : Type 0) : Type 0 where
  pub list : Call P
  pub create : P → Call P
  pub update : JsString → P → Call P
  pub remove : JsString → Call P

unfoldable pub create_hardware_resource_api : {P : Type 0} → JsString → HardwareResourceApi P
create_hardware_resource_api path = record {
  list = without path get;
  create = λ dto. carrying path post dto;
  update = λ id dto. carrying (path ++ (codes "/" ++ id)) patch dto;
  remove = λ id. without (path ++ (codes "/" ++ id)) delete;
}

pub record RecommendationQueryParams (N : Type 0) : Type 0 where
  pub games : List JsString
  pub max_price : N
  pub resolution : N
  pub computer_performance : JsString

-- features/build-pc/api/apiRecommendation.ts; `query_string` is `URLSearchParams.toString`.
module _ {N P : Type 0} ⦃d : JsNumber N⦄
    (query_string : List (JsString × JsString) → JsString) where
  unfoldable pub get_recommendation : RecommendationQueryParams N → Call P
  unfolding join
  get_recommendation params =
      let query =
        (codes "games", join (codes ",") params.games)
        ∷ (codes "max_price", d.to_string params.max_price)
        ∷ (codes "resolution", d.to_string params.resolution)
        ∷ (codes "computer_performance", params.computer_performance)
        ∷ [] in
      without (codes "recommendation?" ++ query_string query) get
