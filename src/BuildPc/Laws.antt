-- ===== src/BuildPc/Laws.antt =====
-- The requests that the page of BuildPc.antt sends.
use build_a_computer.Base.{
  ℕ, ◌+◌, ◌≤◌, ◌≡◌, ◌≢◌, refl, ap, ◌⊎◌, inl, inr, Bool, true, false, not, ◌&&◌, Option, none, some,
  List, [], ◌∷◌, ◌++◌, In, All, length, leb, Bool-cases, Option-cases, arith,
}
use build_a_computer.Base.Strings.{JsString}
use build_a_computer.Base.Number.{JsNumber}
use build_a_computer.Api.{ApiResult, ok, failed}
use build_a_computer.BuildPc.Dtos.{PcResponseDto}
use build_a_computer.BuildPc.{
  Game, Sent, Page, graphics_qualities, resolutions, budget_min, budget_max, budget_step, game_list,
  found, selected_games, can_submit, handle_click, handle_done, handle_confirm, confirm_with,
  handle_answer, opened,
}
use build_a_computer.BuildPc.Steps.{
  Step, fetched, toggled, picked_resolution, picked_quality, moved_low, moved_high, clicked,
  cancelled, confirmed, closed, answered, Reach, here, next,
}
use build_a_computer.BuildPc.Budget.{IsBudget, handle_low-IsBudget, handle_high-IsBudget}
use build_a_computer.BuildPc.Selection.{AllDistinct, handle_toggle-AllDistinct}

abbrev IsChosen : Bool → JsString → Type 0
IsChosen shown q = ((q ≡ []) ⊎ In q graphics_qualities) × (shown ≡ true → In q graphics_qualities)

not_shown : (s : Bool) (q : JsString) → IsChosen s q → IsChosen false q
not_shown s q (c, f) = (c, λ e. cc e)

All-remove :
    {A : Type 0} (P : A → Type 0) (before after : List A) (x : A)
    → All P (before ++ (x ∷ after))
    → All P (before ++ after)
All-remove P [] after x (h, hs) = hs
All-remove P (y ∷ before) after x (h, hs) = (h, All-remove P before after x hs)

and_right : (a b : Bool) → (a && b) ≡ true → b ≡ true
and_right a b h = ground arith

module _ {N : Type 0} ⦃d : JsNumber N⦄ (to_lower_case : JsString → JsString) where
  -- The parameters of a request that the service can answer: some games, none of them twice, a resolution
  -- and a quality of those that are offered, and a price of the slider's range.
  pub IsProper : Sent N → Type 0
  IsProper s =
      (s.params.games ≢ [])
      × (AllDistinct s.params.games
          × (((n : ℕ) × In n resolutions × (s.params.resolution ≡ d.of_ℕ n))
              × (((q : JsString) × In q graphics_qualities
                    × (s.params.computer_performance ≡ to_lower_case q))
                  × ((n : ℕ) × (budget_min + budget_step ≤ n)
                      × (n ≤ budget_max)
                      × (s.params.max_price ≡ d.of_ℕ n)))))

  abbrev IsOffered : Option N → Type 0
  IsOffered none = Unit
  IsOffered (some r) = (n : ℕ) × In n resolutions × (r ≡ d.of_ℕ n)

  pub IsSound : Page N → Type 0
  IsSound p =
      AllDistinct p.selected_game_ids
      × (IsBudget p.budget
          × (IsChosen p.show_confirm p.quality
              × (IsOffered p.resolution × All IsProper p.in_flight)))

  can_submit-quality : (p : Page N) → can_submit p ≡ true → p.quality ≢ []
  unfolding can_submit
  can_submit-quality p h e = elim (Option-cases p.resolution) [
    | inl n ↦ cc (rw n at h)
    | inr (r, s) ↦ cc (
        rw e at (
          and_right (not (leb (length p.selected_game_ids) 0)) (not (leb (length p.quality) 0))
            (rw s at h)))
  ]

  click-IsSound : (p : Page N) → IsSound p → IsSound (handle_click p)
  unfolding IsSound handle_click
  click-IsSound p (i, (b, ((c, f), (o, a)))) = elim (Bool-cases (can_submit p)) [
    | inl can ↦ rw can (
      i,
      (b, ((c, λ _. elim c [ inl e ↦ absurd (can_submit-quality p can e) | inr k ↦ k ]), (o, a))),
    )
    | inr cannot ↦ rw cannot (i, (b, ((c, f), (o, a))))
  ]

  found-selected : (p : Page N) → selected_games p ≢ [] → p.selected_game_ids ≢ []
  found-selected p some_found empty = some_found (ap (λ ids. found (game_list p) ids) empty)

  confirm-IsSound :
      (gs : List Game) (r : Option N) (p : Page N)
      → (gs ≢ [] → p.selected_game_ids ≢ [])
      → p.resolution ≡ r
      → p.show_confirm ≡ true
      → IsSound p
      → IsSound (confirm_with to_lower_case gs r p)
  unfolding IsSound IsProper IsBudget
  confirm-IsSound [] r p g e s (i, (b, (c, (o, a)))) =
      (i, (b, (not_shown p.show_confirm p.quality c, (o, a))))
  confirm-IsSound (h ∷ gs) none p g e s (i, (b, (c, (o, a)))) =
      (i, (b, (not_shown p.show_confirm p.quality c, (o, a))))
  confirm-IsSound (h ∷ gs) (some r) p g e s (i, ((l, (m, u)), ((c, f), (o, a)))) = (
    i,
    (
      (l, (m, u)),
      (
        (c, λ x. cc x),
        (
          o,
          (
            (
              g (λ x. cc x),
              (
                i,
                (rw e at o, ((p.quality, f s, refl), (p.budget.1, omega (arith, l, m), u, refl))),
              ),
            ),
            a,
          ),
        ),
      ),
    ),
  )

  answer-IsSound :
      (p : Page N) (sent : Sent N) (result : ApiResult N (List (PcResponseDto N)))
      → IsSound p
      → IsSound (handle_answer sent result p)
  unfolding IsSound handle_answer
  answer-IsSound p sent (ok pcs) h = h
  answer-IsSound p sent (failed e) h = h

  module _
      (number_of_string : (n : ℕ)
        → In n resolutions
        → d.of_string (d.to_string (d.of_ℕ n)) ≡ d.of_ℕ n) where
    Step-IsSound : {p q : Page N} → Step to_lower_case p q → IsSound p → IsSound q
    unfolding IsSound handle_done handle_confirm
    Step-IsSound (fetched p games) h = h
    Step-IsSound (toggled p o _) (i, r) = (handle_toggle-AllDistinct o.0 p.selected_game_ids i, r)
    Step-IsSound (picked_resolution p n k) (i, (b, (c, (o, a)))) =
        (i, (b, (c, ((n, k, number_of_string n k), a))))
    Step-IsSound (picked_quality p q k) (i, (b, (c, r))) = (i, (b, ((inr k, λ _. k), r)))
    Step-IsSound (moved_low p v l _) (i, (b, r)) = (i, (handle_low-IsBudget v p.budget l b, r))
    Step-IsSound (moved_high p v _ u) (i, (b, r)) = (i, (handle_high-IsBudget v p.budget u b, r))
    Step-IsSound (clicked p) h = click-IsSound p h
    Step-IsSound (cancelled p _) (i, (b, (c, r))) =
        (i, (b, (not_shown p.show_confirm p.quality c, r)))
    Step-IsSound (confirmed p s _) h =
        confirm-IsSound (selected_games p) p.resolution p (found-selected p) refl s h
    Step-IsSound (closed p _) h = h
    Step-IsSound (answered p before after sent result e) (i, (b, (c, (o, a)))) =
        answer-IsSound (record p { in_flight = before ++ after }) sent result
          (i, (b, (c, (o, All-remove IsProper before after sent (rw e at a)))))

    reached-IsSound : {p : Page N} → Reach to_lower_case opened p → IsSound p
    unfolding IsSound opened IsBudget
    reached-IsSound here =
        (tt, ((omega arith, (omega arith, omega arith)), ((inl refl, λ e. cc e), (tt, tt))))
    reached-IsSound (next reached step) = Step-IsSound step (reached-IsSound reached)

    -- Whatever the user does with the controls, and whenever the games and the answers arrive: each request
    -- for a build that waits for its answer asks for one game at least and for none of them twice, for one of
    -- the offered resolutions, for one of the offered qualities in lower case, and for a price from a step
    -- above the slider's lower end to its upper end. `Number` gives back a resolution that `String` was given.
    pub sent-IsProper : (p : Page N) → Reach to_lower_case opened p → All IsProper p.in_flight
    unfolding IsSound
    sent-IsProper p r = let (i, (b, (c, (o, a)))) = reached-IsSound r in a
