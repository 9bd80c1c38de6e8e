-- ===== src/Requests/Features.antt =====
-- The hooks of the features, each with the call that it makes: features/*/hooks of frontend/src.
-- `send` is the client: it takes a call to what `api` settles with. A list is the data of the answer
-- as it is, since the sources give it a type without a test.
use build_a_computer.Base.{Bool, List}
use build_a_computer.Base.Strings.{JsString}
use build_a_computer.Base.Number.{JsNumber}
use build_a_computer.Api.{ApiResult}
use build_a_computer.Api.Endpoints
use build_a_computer.Api.Endpoints.{
  Call, HardwareResourceApi, RecommendationQueryParams, get_recommendation,
}
use build_a_computer.Requests.{HookState, begin, settle_change}
use build_a_computer.Requests.Hooks.{run_fetch, run_change}

module _ {N P S T : Type 0} (send : Call P → S → ApiResult N T × S) where
  -- What a hook does to its cells and to the world, and what its function returns.
  abbrev pub Fetch : Type 0
  Fetch = HookState N T → S → HookState N T × S × ApiResult N T

  abbrev pub Send : Type 0
  Send = HookState N (Unit {0}) → S → HookState N (Unit {0}) × S × Bool

  unfoldable pub fetch_benchmarks : Fetch
  unfolding run_fetch
  fetch_benchmarks = run_fetch (send Endpoints.get_benchmarks)

  unfoldable pub fetch_cpus : Fetch
  unfolding run_fetch
  fetch_cpus = run_fetch (send Endpoints.get_cpus)

  unfoldable pub fetch_gpus : Fetch
  unfolding run_fetch
  fetch_gpus = run_fetch (send Endpoints.get_gpus)

  unfoldable pub fetch_rams : Fetch
  unfolding run_fetch
  fetch_rams = run_fetch (send Endpoints.get_rams)

  unfoldable pub fetch_games : Fetch
  unfolding run_fetch
  fetch_games = run_fetch (send Endpoints.get_games)

  unfoldable pub fetch_users : Fetch
  unfolding run_fetch
  fetch_users = run_fetch (send Endpoints.get_users)

  unfoldable pub request_create_benchmark : P → Send
  unfolding run_change
  request_create_benchmark dto = run_change (send (Endpoints.create_benchmark dto))

  unfoldable pub request_delete_benchmark : JsString → Send
  unfolding run_change
  request_delete_benchmark id = run_change (send (Endpoints.delete_benchmark id))

  unfoldable pub request_create_game : P → Send
  unfolding run_change
  request_create_game dto = run_change (send (Endpoints.create_game dto))

  unfoldable pub request_update_game : JsString → P → Send
  unfolding run_change
  request_update_game id dto = run_change (send (Endpoints.update_game id dto))

  unfoldable pub request_delete_game : JsString → Send
  unfolding run_change
  request_delete_game id = run_change (send (Endpoints.delete_game id))

  unfoldable pub request_create_user : P → Send
  unfolding run_change
  request_create_user dto = run_change (send (Endpoints.create_user dto))

  unfoldable pub request_update_user : JsString → P → Send
  unfolding run_change
  request_update_user id dto = run_change (send (Endpoints.update_user id dto))

  unfoldable pub request_delete_user : JsString → Send
  unfolding run_change
  request_delete_user id = run_change (send (Endpoints.delete_user id))

  unfoldable pub send_forgot_password : P → Send
  unfolding run_change
  send_forgot_password dto = run_change (send (Endpoints.forgot_password dto))

  unfoldable pub send_reset_password : P → Send
  unfolding run_change
  send_reset_password dto = run_change (send (Endpoints.reset_password dto))

  -- `useFetchGames` and `useUpdateGame` of the benchmark feature; the latter returns the answer.
  unfoldable pub fetch_benchmark_games : Fetch
  unfolding run_fetch
  fetch_benchmark_games = run_fetch (send Endpoints.get_games)

  unfoldable pub update_benchmark_game :
      JsString → P → HookState N (Unit {0}) → S → HookState N (Unit {0}) × S × ApiResult N T
  unfolding begin settle_change
  update_benchmark_game id dto h s =
      let (result, t) = send (Endpoints.update_game id dto) s in
      (settle_change result (begin h), t, result)

  -- `useHardwareList`, `useCreateHardware`, `useUpdateHardware` and `useDeleteHardware`.
  unfoldable pub fetch_items : HardwareResourceApi P → Fetch
  unfolding run_fetch
  fetch_items resource = run_fetch (send resource.list)

  unfoldable pub create_item : HardwareResourceApi P → P → Send
  unfolding run_change
  create_item resource dto = run_change (send (resource.create dto))

  unfoldable pub update_item : HardwareResourceApi P → JsString → P → Send
  unfolding run_change
  update_item resource id dto = run_change (send (resource.update id dto))

  unfoldable pub remove_item : HardwareResourceApi P → JsString → Send
  unfolding run_change
  remove_item resource id = run_change (send (resource.remove id))

-- `useGetRecommendation`; `query_string` is `URLSearchParams.toString`.
module _ {N P S T : Type 0} ⦃d : JsNumber N⦄ (query_string : List (JsString × JsString) → JsString)
    (send : Call P → S → ApiResult N T × S) where
  unfoldable pub fetch_recommendation : RecommendationQueryParams N → Fetch send
  unfolding run_fetch
  fetch_recommendation params = run_fetch (send (get_recommendation query_string params))
