-- ===== src/Requests/Pages/Search.antt =====
-- The search of frontend/src/features/games/components/games-page.tsx.
-- `trim` and `lower` are `String.prototype.trim` and `toLowerCase`.
use build_a_computer.Base.{
  ◌≡◌, ◌↔◌, ◌⊎◌, inl, inr, refl, true, List, [], ◌∷◌, filter, In, In-filter_iff,
}
use build_a_computer.Base.Strings.{JsString, includes}
use build_a_computer.BuildPc.{GameResponseDto}

module _ {N : Type 0} (trim lower : JsString → JsString) where
  -- The games for a text that was trimmed.
  abbrev games_for : JsString → List (GameResponseDto N) → List (GameResponseDto N)
  games_for [] games = games
  games_for (c ∷ s) games = filter (λ game. includes (lower game.name) (lower (c ∷ s))) games

  unfoldable pub filtered_games : JsString → List (GameResponseDto N) → List (GameResponseDto N)
  filtered_games search games = games_for (trim search) games

  In-games_for :
      (s : JsString) (games : List (GameResponseDto N)) (game : GameResponseDto N)
      → In game (games_for s games)
        ↔ (In game games × ((s ≡ []) ⊎ (includes (lower game.name) (lower s) ≡ true)))
  In-games_for [] games game = (λ i. (i, inl refl), λ h. h.0)
  In-games_for (c ∷ s) games game =
      let p = In-filter_iff (λ g. includes (lower g.name) (lower (c ∷ s))) game games in
      (
        λ i. let (j, e) = p.0 i in (j, inr e),
        λ h. elim h.1 [ inl e ↦ absurd (cc e) | inr e ↦ p.1 (h.0, e) ],
      )

  -- A game is shown exactly when it is among the games and the search is blank, or the game's name in lower case
  -- contains the trimmed search in lower case.
  In-filtered_games :
      (search : JsString) (games : List (GameResponseDto N)) (game : GameResponseDto N)
      → In game (filtered_games search games) ↔ (
          In game games
          × ((trim search ≡ []) ⊎ (includes (lower game.name) (lower (trim search)) ≡ true)))
  unfolding filtered_games
  In-filtered_games search games game = In-games_for (trim search) games game
