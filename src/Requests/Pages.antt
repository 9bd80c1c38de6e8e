-- ===== src/Requests/Pages.antt =====
-- The handlers of the pages that manage a list: a change is sent, then a toast is shown and, on
-- success, the list is fetched again. features/users/components/users-page.tsx,
-- features/games/components/games-page.tsx, features/hardware/components/hardware-resource-panel.tsx
-- and features/benchmark/components/benchmarks-page.tsx of frontend/src.
pub mod Laws
pub mod Attempts
pub mod Handlers
pub mod Search
use build_a_computer.Base.{
  Bool, true, false, Option, none, some, List, [], ◌∷◌, ◌++◌, if◌then◌else◌,
}
use build_a_computer.Base.Strings.{JsString, codes, str_eq}
use build_a_computer.Base.Json.{Json, str, is_falsy}
use build_a_computer.Api.{ApiError, http_error, other_error, ApiResult}
use build_a_computer.Requests.{HookState}
use build_a_computer.Requests.Hooks.{run_fetch, run_change}

pub data Toast (N : Type 0) : Type 0 where
  success : (title : JsString) → Toast N
  danger : (title : JsString) → (description : Json N) → Toast N

-- The hooks of a page that creates, updates and deletes the items `A` of a list.
pub record ListPage (N A : Type 0) : Type 0 where
  pub items : HookState N (List A)
  pub creating : HookState N (Unit {0})
  pub updating : HookState N (Unit {0})
  pub removing : HookState N (Unit {0})
  pub toasts : List (Toast N)

pub data Change : Type 0 where
  create update remove : Change

module _ {N A : Type 0} where
  abbrev pub hook : ListPage N A → Change → HookState N (Unit {0})
  hook p create = p.creating
  hook p update = p.updating
  hook p remove = p.removing

  abbrev pub with_hook : ListPage N A → Change → HookState N (Unit {0}) → ListPage N A
  with_hook p create h = record p { creating = h }
  with_hook p update h = record p { updating = h }
  with_hook p remove h = record p { removing = h }

  abbrev pub show : Toast N → ListPage N A → ListPage N A
  show t p = record p { toasts = p.toasts ++ t ∷ [] }

-- `error?.message || fallback`.
unfoldable pub error_text : {N : Type 0} → (N → Bool) → Option (ApiError N) → JsString → Json N
error_text is_zero none fallback = str fallback
error_text is_zero (some (http_error _ m)) fallback = if is_falsy is_zero m then str fallback else m
error_text is_zero (some (other_error [])) fallback = str fallback
error_text is_zero (some (other_error (c ∷ s))) fallback = str (c ∷ s)

pub record Texts : Type 0 where
  pub done : JsString
  pub trouble : JsString
  pub fallback : JsString

module _ {N A S : Type 0} where
  -- `await fetchItems()`.
  unfoldable pub refetch : (S → ApiResult N (List A) × S) → ListPage N A → S → ListPage N A × S
  unfolding run_fetch
  refetch list p s = let (h, t, _) = run_fetch list p.items s in (record p { items = h }, t)

module _ {N A S T : Type 0} (is_zero : N → Bool) where
  -- A handler. `rendered` is the error that its closure holds: that of the hook when the page was
  -- last rendered. The flag is what the
  -- handler returns; one that deletes returns nothing, and the flag tells its branches apart.
  unfoldable pub handle :
      Change
      → Texts
      → (rendered : Option (ApiError N)) → (S → ApiResult N T × S)
      → (S → ApiResult N (List A) × S)
      → ListPage N A
      → S
      → ListPage N A × S × Bool
  unfolding run_change
  handle change texts rendered call list p s =
      let (h, t, is_success) = run_change call (hook p change) s in
      let p' = with_hook p change h in
      let shown = refetch list (show (success texts.done) p') t in
      if is_success
      then (shown.0, shown.1, true)
      else (show (danger texts.trouble (error_text is_zero rendered texts.fallback)) p', t, false)

abbrev pub verify : JsString
verify = codes "Verify the inputed data and try again."

abbrev pub later : JsString
later = codes "Please try again later."

abbrev pub texts : JsString → JsString → JsString → Texts
texts a b c = record { done = a; trouble = b; fallback = c }

-- `handleCreateUser`, `handleUpdateUser` and `confirmDelete` of the users page.
abbrev pub user_texts : Change → Texts
user_texts create =
    texts (codes "Created user successfully!") (codes "Error while creating user") verify
user_texts update =
    texts (codes "User updated successfully!") (codes "Error while updating user") verify
user_texts remove =
    texts (codes "Account deleted successfully!") (codes "An error occurred while deleting user")
      later

-- Those of the games page.
abbrev pub game_texts : Change → Texts
game_texts create =
    texts (codes "Created game successfully!") (codes "Error while creating game") verify
game_texts update =
    texts (codes "Game updated successfully!") (codes "Error while updating game") verify
game_texts remove =
    texts (codes "Game deleted successfully!") (codes "An error occurred while deleting game") later

-- Those of a hardware panel with its label.
abbrev pub hardware_texts : JsString → Change → Texts
hardware_texts label create =
    texts (label ++ codes " created successfully!") (codes "Error while creating " ++ label) verify
hardware_texts label update =
    texts (label ++ codes " updated successfully!") (codes "Error while updating " ++ label) verify
hardware_texts label remove =
    texts (label ++ codes " deleted successfully!") (codes "Error while deleting " ++ label) later
