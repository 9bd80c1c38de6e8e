-- ===== src/Requests/Hooks.antt =====
-- The hooks themselves, as transformers of their cells and of the world that `api` acts on. `call` is
-- the function of the API module.
use build_a_computer.Base.{Bool}
use build_a_computer.Api.{ApiResult}
use build_a_computer.Requests.{HookState, begin, settle, settle_change, succeeded}

module _ {N S : Type 0} where
  -- A hook that fetches, run to its end: the new cells, the world, and the result that it returns.
  unfoldable pub run_fetch :
      {A : Type 0} → (S → ApiResult N A × S) → HookState N A → S → HookState N A × S × ApiResult N A
  unfolding begin settle
  run_fetch call h s = let (result, t) = call s in (settle result (begin h), t, result)

  -- A hook that sends a change.
  unfoldable pub run_change :
      {A T : Type 0} → (S → ApiResult N T × S) → HookState N A → S → HookState N A × S × Bool
  unfolding begin settle_change
  run_change call h s =
      let (result, t) = call s in (settle_change result (begin h), t, succeeded result)
