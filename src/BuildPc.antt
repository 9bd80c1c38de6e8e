-- ===== src/BuildPc.antt =====
-- The page that asks for a build: frontend/src/features/build-pc/components/build-pc-page.tsx, with its
-- controls glass-combobox.tsx, pill-group.tsx and budget-slider.tsx. The
-- page's state is a record; each handler is a function on it; a request that waits for its answer stands
-- in `in_flight` with the data that its closure keeps for `onSubmit`. `to_lower_case` is the method of a
-- string.
pub mod Dtos
pub mod Steps
pub mod Budget
pub mod Selection
pub mod Laws
use build_a_computer.Base.{
  ℕ, suc, ◌+◌, ◌-◌, Bool, true, false, not, ◌&&◌, ◌||◌, Option, none, some, List, [], ◌∷◌, ◌++◌,
  map, filter, any, length, leb, if◌then◌else◌, or_else,
}
use build_a_computer.Base.Strings.{JsString, codes, str_eq, includes, join}
use build_a_computer.Base.Number.{JsNumber}
use build_a_computer.Api.{ApiResult, ok, failed}
use build_a_computer.Api.Endpoints.{RecommendationQueryParams}
use build_a_computer.Images.{DataUrl, bytes_to_data_url}
use build_a_computer.BuildPc.Dtos.{PcResponseDto}

-- `GameResponseDto` of features/games/types/dtos.ts.
pub record GameResponseDto (N : Type 0) : Type 0 where
  pub id : JsString
  pub name : JsString
  pub img : Option (List ℕ)
  pub necessary_disk : N
  pub created_at : JsString
  pub updated_at : Option JsString

pub record Game : Type 0 where
  pub id : JsString
  pub name : JsString
  pub banner_url : DataUrl

pub record BuildPcSubmitData (N : Type 0) : Type 0 where
  pub games : List Game
  pub resolution : N
  pub quality : JsString
  pub budget_min : ℕ
  pub budget_max : ℕ

-- A call of `getRecommendation` that has not settled, with what it goes on with.
pub record Sent (N : Type 0) : Type 0 where
  pub params : RecommendationQueryParams N
  pub submit_data : BuildPcSubmitData N

pub record Page (N : Type 0) : Type 0 where
  pub fetched_games : List (GameResponseDto N)
  pub selected_game_ids : List JsString
  pub resolution : Option N
  pub quality : JsString
  pub budget : ℕ × ℕ
  pub show_confirm : Bool
  pub submitted : Bool
  pub recommendations : List (PcResponseDto N)
  pub in_flight : List (Sent N)
  -- What `onSubmit` was called with.
  pub reported : List (BuildPcSubmitData N)

abbrev pub graphics_qualities : List JsString
graphics_qualities = codes "Low" ∷ codes "Medium" ∷ codes "High" ∷ codes "Ultra" ∷ []

abbrev pub resolutions : List ℕ
resolutions = 1080 ∷ 1440 ∷ 2160 ∷ []

-- `budget-slider.tsx`: a range input gives a whole number of its range. The upper end is a step away
-- from 0 at least, so that the subtraction is that of the source.
abbrev pub budget_min : ℕ
budget_min = 500

abbrev pub budget_max : ℕ
budget_max = 10000

abbrev pub budget_step : ℕ
budget_step = 50

unfoldable pub handle_low : ℕ → ℕ × ℕ → ℕ × ℕ
handle_low v (low, high) = (if leb v (high - budget_step) then v else high - budget_step, high)

unfoldable pub handle_high : ℕ → ℕ × ℕ → ℕ × ℕ
handle_high v (low, high) = (low, if leb (low + budget_step) v then v else low + budget_step)

-- `glass-combobox.tsx`.
unfoldable pub handle_toggle : JsString → List JsString → List JsString
handle_toggle v value =
    if any (str_eq v) value then filter (λ x. not (str_eq x v)) value else (value ++ v ∷ [])

unfoldable pub filtered :
    (JsString → JsString) → JsString → List (JsString × JsString) → List (JsString × JsString)
filtered to_lower_case query options =
    filter (λ o. includes (to_lower_case o.1) (to_lower_case query)) options

module _ {N : Type 0} where
  -- The state of `useState` at the first render.
  unfoldable pub opened : Page N
  opened = record {
    fetched_games = [];
    selected_game_ids = [];
    resolution = none;
    quality = [];
    budget = (1000, 3000);
    show_confirm = false;
    submitted = false;
    recommendations = [];
    in_flight = [];
    reported = [];
  }

  abbrev pub game_list : Page N → List Game
  game_list p =
      map
        (λ g. record {
          id = g.id;
          name = g.name;
          banner_url = bytes_to_data_url g.img (codes "image/png");
        })
        p.fetched_games

  abbrev pub game_options : Page N → List (JsString × JsString)
  game_options p = map (λ g. (g.id, g.name)) (game_list p)

-- `gamesById.get(id)`: of two games with one id the map keeps the later.
abbrev pub get_game : JsString → List Game → Option Game
get_game id [] = none
get_game id (g ∷ games) = elim (get_game id games) [
  | some h ↦ some h
  | none ↦ if str_eq id g.id then some g else none
]

abbrev pub found : List Game → List JsString → List Game
found games [] = []
found games (id ∷ ids) = elim (get_game id games) [
  | some g ↦ g ∷ found games ids
  | none ↦ found games ids
]

module _ {N : Type 0} where
  abbrev pub selected_games : Page N → List Game
  selected_games p = found (game_list p) p.selected_game_ids

  unfoldable pub can_submit : Page N → Bool
  can_submit p = elim p.resolution [
    | none ↦ false
    | some _ ↦ not (leb (length p.selected_game_ids) 0) && not (leb (length p.quality) 0)
  ]

  -- The button's `onClick`.
  unfoldable pub handle_click : Page N → Page N
  unfolding can_submit
  handle_click p = if can_submit p then record p { show_confirm = true } else p

  unfoldable pub handle_done : Page N → Page N
  handle_done p = record p { submitted = false }

module _ {N : Type 0} ⦃d : JsNumber N⦄ (to_lower_case : JsString → JsString) where
  -- What `handleConfirm` asks for.
  abbrev pub params_of : Page N → N → RecommendationQueryParams N
  params_of p r = record {
    games = p.selected_game_ids;
    max_price = d.of_ℕ (p.budget.1);
    resolution = r;
    computer_performance = to_lower_case p.quality;
  }

  abbrev pub data_of : Page N → N → BuildPcSubmitData N
  data_of p r = record {
    games = selected_games p;
    resolution = r;
    quality = p.quality;
    budget_min = p.budget.0;
    budget_max = p.budget.1;
  }

  -- `handleConfirm` up to its `await`, given the selected games and the resolution.
  abbrev pub confirm_with : List Game → Option N → Page N → Page N
  confirm_with [] _ p = record p { show_confirm = false }
  confirm_with (_ ∷ _) none p = record p { show_confirm = false }
  confirm_with (_ ∷ _) (some r) p = record p {
    show_confirm = false;
    in_flight = (record { params = params_of p r; submit_data = data_of p r }) ∷ p.in_flight;
  }

  unfoldable pub handle_confirm : Page N → Page N
  handle_confirm p = confirm_with (selected_games p) p.resolution p

module _ {N : Type 0} where
  -- `handleConfirm` after its `await`; a failure only shows a toast.
  unfoldable pub handle_answer : Sent N → ApiResult N (List (PcResponseDto N)) → Page N → Page N
  handle_answer sent (failed _) p = p
  handle_answer sent (ok pcs) p = record p {
    recommendations = pcs;
    submitted = true;
    reported = sent.submit_data ∷ p.reported;
  }
