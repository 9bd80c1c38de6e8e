-- ===== src/Requests/Pages/Handlers.antt =====
-- The handlers of each page, with the calls and the texts that they use.
use build_a_computer.Base.{Bool, Option, none, some, List, if◌then◌else◌}
use build_a_computer.Base.Strings.{JsString, codes, str_eq}
use build_a_computer.Api.{ApiError, ApiResult}
use build_a_computer.Api.Endpoints
use build_a_computer.Api.Endpoints.{Call, HardwareResourceApi}
use build_a_computer.Requests.Pages.{
  ListPage, create, update, remove, handle, user_texts, game_texts, hardware_texts, texts, later,
}

-- `send` and `load` are the client, for a change and for a list; `rendered` is the error of the last
-- render.
module _ {N A P S T : Type 0} (is_zero : N → Bool) (send : Call P → S → ApiResult N T × S)
    (load : Call P → S → ApiResult N (List A) × S) (rendered : Option (ApiError N)) where
  abbrev Handler : Type 0
  Handler = ListPage N A → S → ListPage N A × S × Bool

  unfoldable pub handle_create_user : P → Handler
  unfolding handle
  handle_create_user dto =
      handle is_zero create (user_texts create) rendered (send (Endpoints.create_user dto))
        (load Endpoints.get_users)

  unfoldable pub handle_update_user : JsString → P → Handler
  unfolding handle
  handle_update_user id dto =
      handle is_zero update (user_texts update) rendered (send (Endpoints.update_user id dto))
        (load Endpoints.get_users)

  unfoldable pub handle_delete_user : JsString → Handler
  unfolding handle
  handle_delete_user id =
      handle is_zero remove (user_texts remove) rendered (send (Endpoints.delete_user id))
        (load Endpoints.get_users)

  unfoldable pub handle_create_game : P → Handler
  unfolding handle
  handle_create_game dto =
      handle is_zero create (game_texts create) rendered (send (Endpoints.create_game dto))
        (load Endpoints.get_games)

  unfoldable pub handle_update_game : JsString → P → Handler
  unfolding handle
  handle_update_game id dto =
      handle is_zero update (game_texts update) rendered (send (Endpoints.update_game id dto))
        (load Endpoints.get_games)

  unfoldable pub handle_delete_game : JsString → Handler
  unfolding handle
  handle_delete_game id =
      handle is_zero remove (game_texts remove) rendered (send (Endpoints.delete_game id))
        (load Endpoints.get_games)

  unfoldable pub handle_create_hardware : JsString → HardwareResourceApi P → P → Handler
  unfolding handle
  handle_create_hardware label resource dto =
      handle is_zero create (hardware_texts label create) rendered (send (resource.create dto))
        (load resource.list)

  unfoldable pub handle_update_hardware : JsString → HardwareResourceApi P → JsString → P → Handler
  unfolding handle
  handle_update_hardware label resource id dto =
      handle is_zero update (hardware_texts label update) rendered (send (resource.update id dto))
        (load resource.list)

  unfoldable pub handle_delete_hardware : JsString → HardwareResourceApi P → JsString → Handler
  unfolding handle
  handle_delete_hardware label resource id =
      handle is_zero remove (hardware_texts label remove) rendered (send (resource.remove id))
        (load resource.list)

  -- `prev === id ? null : prev`.
  abbrev deselect : JsString → Option JsString → Option JsString
  deselect id none = none
  deselect id (some prev) = if str_eq prev id then none else some prev

  -- `handleDelete` of the benchmarks page, which also gives up the selection of the deleted one.
  unfoldable pub handle_delete_benchmark :
      JsString → Option JsString → ListPage N A → S → ListPage N A × S × Option JsString
  unfolding handle str_eq
  handle_delete_benchmark id selected p s =
      let (q, t, is_success) =
        handle is_zero remove
          (texts (codes "Benchmark deleted successfully!") (codes "Failed to delete benchmark")
            later)
          rendered (send (Endpoints.delete_benchmark id)) (load Endpoints.get_benchmarks) p s in
      (q, t, if is_success then deselect id selected else selected)
