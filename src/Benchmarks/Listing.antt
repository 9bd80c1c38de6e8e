-- ===== src/Benchmarks/Listing.antt =====
-- The list of frontend/src/features/benchmark/components/benchmarks-page.tsx: which benchmarks it
-- shows and in which order, the names of their games, and who may delete one.
pub mod Laws
use build_a_computer.Base.{
  Bool, true, false, ◌||◌, Option, none, some, List, [], ◌∷◌, if◌then◌else◌, filter, or_else,
}
use build_a_computer.Base.Strings.{JsString, codes, str_eq}
use build_a_computer.Base.Number.{JsNumber}
use build_a_computer.Base.Json.{Json, str}
use build_a_computer.Base.Sort
use build_a_computer.Benchmarks.{BenchmarkResponseDto, GameResponseDto}
use build_a_computer.Benchmarks.Filters.{Filters, is_shown}
use build_a_computer.Benchmarks.Format.{system_price}

pub data SortKey : Type 0 where
  avg_fps_desc min_fps_desc max_fps_desc price_asc price_desc : SortKey

module _ {N : Type 0} ⦃d : JsNumber N⦄ where
  -- The comparators, as the number that they return.
  unfoldable pub comparator : SortKey → BenchmarkResponseDto N → BenchmarkResponseDto N → N
  comparator avg_fps_desc a b = d.sub b.avg_fps a.avg_fps
  comparator min_fps_desc a b = d.sub b.min_fps a.min_fps
  comparator max_fps_desc a b = d.sub b.max_fps a.max_fps
  comparator price_asc a b = d.sub (system_price a) (system_price b)
  comparator price_desc a b = d.sub (system_price b) (system_price a)

  -- The comparator is positive: `a` goes behind `b`.
  unfoldable pub goes_after : SortKey → BenchmarkResponseDto N → BenchmarkResponseDto N → Bool
  goes_after key a b = d.lt (d.of_ℕ 0) (comparator key a b)

  unfoldable pub filtered :
      List (BenchmarkResponseDto N) → Filters N → SortKey → List (BenchmarkResponseDto N)
  filtered benchmarks filters key =
      Sort.sort (goes_after key) (filter (is_shown filters) benchmarks)

-- `new Map(games.map((g) => [g.id, g.name]))`: of two games with one id the later one counts.
unfoldable pub game_name_by_id :
    {N : Type 0} → List (GameResponseDto N) → JsString → Option JsString
unfolding str_eq
game_name_by_id [] id = none
game_name_by_id (g ∷ games) id = elim (game_name_by_id games id) [
  | some n ↦ some n
  | none ↦ if str_eq g.id id then some g.name else none
]

unfoldable pub game_name :
    {N : Type 0} → List (GameResponseDto N) → BenchmarkResponseDto N → JsString
unfolding game_name_by_id
game_name games b = or_else (game_name_by_id games b.game_id) b.game_id

-- `v === s` for a string `s`.
unfoldable pub is_string : {N : Type 0} → Json N → JsString → Bool
unfolding str_eq
is_string (str r) s = str_eq r s
is_string _ s = false

-- `role` and `current_user_id` are what utils/jwt.ts reads from the token.
unfoldable pub can_delete : {N : Type 0} → Json N → Json N → BenchmarkResponseDto N → Bool
unfolding is_string
can_delete role current_user_id b =
    is_string role (codes "admin")
    || is_string role (codes "supervisor")
    || is_string current_user_id b.user_id

-- `setSelectedId((prev) => (prev === id ? null : id))`.
unfoldable pub toggle_selected : JsString → Option JsString → Option JsString
unfolding str_eq
toggle_selected id none = some id
toggle_selected id (some prev) = if str_eq prev id then none else some id
