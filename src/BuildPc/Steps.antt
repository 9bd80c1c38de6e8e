-- ===== src/BuildPc/Steps.antt =====
-- What may happen to the page of BuildPc.antt, in any order.
use build_a_computer.Base.{ℕ, ◌≤◌, ◌≡◌, true, false, some, List, ◌∷◌, ◌++◌, In}
use build_a_computer.Base.Strings.{JsString}
use build_a_computer.Base.Number.{JsNumber}
use build_a_computer.Api.{ApiResult}
use build_a_computer.BuildPc.Dtos.{PcResponseDto}
use build_a_computer.BuildPc.{
  GameResponseDto, Sent, Page, graphics_qualities, resolutions, budget_min, budget_max, handle_low,
  handle_high, handle_toggle, game_options, handle_click, handle_done, handle_confirm,
  handle_answer,
}

module _ {N : Type 0} ⦃d : JsNumber N⦄ (to_lower_case : JsString → JsString) where
  pub data Step : Page N → Page N → Type 0 where
    -- The games arrive.
    fetched :
        (p : Page N) (games : List (GameResponseDto N))
        → Step p (record p { fetched_games = games })
    -- The controls: a game of the list, one of the pills, whose values are strings, and the two sliders.
    toggled :
        (p : Page N) (o : JsString × JsString)
        → In o (game_options p)
        → Step p (record p { selected_game_ids = handle_toggle o.0 p.selected_game_ids })
    picked_resolution :
        (p : Page N) (n : ℕ)
        → In n resolutions
        → Step p (record p { resolution = some (d.of_string (d.to_string (d.of_ℕ n))) })
    picked_quality :
        (p : Page N) (q : JsString) → In q graphics_qualities → Step p (record p { quality = q })
    moved_low :
        (p : Page N) (v : ℕ)
        → budget_min ≤ v
        → v ≤ budget_max
        → Step p (record p { budget = handle_low v p.budget })
    moved_high :
        (p : Page N) (v : ℕ)
        → budget_min ≤ v
        → v ≤ budget_max
        → Step p (record p { budget = handle_high v p.budget })
    -- The button, and those of the overlays, which stand while they are shown.
    clicked : (p : Page N) → Step p (handle_click p)
    cancelled : (p : Page N) → p.show_confirm ≡ true → Step p (record p { show_confirm = false })
    confirmed :
        (p : Page N)
        → p.show_confirm ≡ true
        → p.submitted ≡ false
        → Step p (handle_confirm to_lower_case p)
    closed : (p : Page N) → p.submitted ≡ true → Step p (handle_done p)
    -- One of the requests settles.
    answered :
        (p : Page N) (before after : List (Sent N)) (sent : Sent N)
        (result : ApiResult N (List (PcResponseDto N)))
        → p.in_flight ≡ before ++ (sent ∷ after)
        → Step p (handle_answer sent result (record p { in_flight = before ++ after }))

  pub data Reach (o : Page N) : Page N → Type 0 where
    here : Reach o o
    next : {p q : Page N} → Reach o p → Step p q → Reach o q
