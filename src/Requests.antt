-- ===== src/Requests.antt =====
-- The request hooks of the features: a list that is fetched (`useFetch…`, `useHardwareList`,
-- `useGetRecommendation`) and a change that is sent (`useCreate…`, `useUpdate…`, `useDelete…`).
-- An asynchronous call is two steps, before and after its `await`; the steps of several calls may
-- interleave.
pub mod Traces
pub mod Hooks
pub mod Features
pub mod Session
pub mod Pages
use build_a_computer.Base.{Bool, true, false, Option, none, some, List, [], ◌∷◌}
use build_a_computer.Api.{ApiError, ApiResult, ok, failed}

-- The `useState` cells of a hook. A hook that sends a change has no data: `A` is `Unit`.
pub record HookState (N A : Type 0) : Type 0 where
  pub value : A
  pub error : Option (ApiError N)
  pub is_loading : Bool

module _ {N A : Type 0} where
  -- `useState([])`, `useState()`, `useState(false)`.
  abbrev pub idle : A → HookState N A
  idle a = record { value = a; error = none; is_loading = false }

  -- Before the `await`: `setIsLoading(true); setError(undefined)`.
  unfoldable pub begin : HookState N A → HookState N A
  begin s = record s { error = none; is_loading = true }

  -- After it, in a hook that fetches.
  unfoldable pub settle : ApiResult N A → HookState N A → HookState N A
  settle (ok a) s = record s { value = a; is_loading = false }
  settle (failed e) s = record s { error = some e; is_loading = false }

  -- After it, in a hook that sends a change, whose answer is not kept.
  unfoldable pub settle_change : {T : Type 0} → ApiResult N T → HookState N A → HookState N A
  settle_change (ok _) s = record s { is_loading = false }
  settle_change (failed e) s = record s { error = some e; is_loading = false }

-- What a change returns.
abbrev pub succeeded : {N T : Type 0} → ApiResult N T → Bool
succeeded (ok _) = true
succeeded (failed _) = false
