-- ===== src/Examples/BuildPc.antt =====
-- A visit of the page that asks for a build.
use build_a_computer.Base.{ℕ, ◌≡◌, refl, In, inl, inr, none, some, [], ◌∷◌, All, arith}
use build_a_computer.Base.Strings.{JsString, codes}
use build_a_computer.BuildPc.{
  GameResponseDto, resolutions, Page, opened, handle_toggle, handle_high, handle_click, can_submit,
  handle_confirm,
}
use build_a_computer.BuildPc.Steps.{
  Reach, here, next, fetched, toggled, picked_resolution, picked_quality, moved_high, clicked,
  confirmed,
}
use build_a_computer.BuildPc.Laws.{IsProper, sent-IsProper}
use build_a_computer.Examples.Numbers.{naturals}

-- `to_lower_case`, on the letters of the qualities.
abbrev lower : JsString → JsString
lower s = s

abbrev ring : GameResponseDto ℕ
ring = record {
  id = codes "g1";
  name = codes "Elden Ring";
  img = none;
  necessary_disk = 60;
  created_at = codes "2026-01-01";
  updated_at = none;
}

abbrev listed : Page ℕ
listed = record opened { fetched_games = ring ∷ [] }

abbrev chosen : Page ℕ
chosen = record listed { selected_game_ids = handle_toggle (codes "g1") [] }

abbrev sharp : Page ℕ
sharp = record chosen {
  resolution = some (naturals.of_string (naturals.to_string (naturals.of_ℕ 1440)));
}

abbrev fine : Page ℕ
fine = record sharp { quality = codes "High" }

abbrev paid : Page ℕ
paid = record fine { budget = handle_high 1050 fine.budget }

-- `Number` of what `String` gives.
number_of_string : (n : ℕ) → In n resolutions → naturals.of_string (naturals.to_string n) ≡ n
number_of_string n (inl e) = rw e refl
number_of_string n (inr (inl e)) = rw e refl
number_of_string n (inr (inr (inl e))) = rw e refl
number_of_string n (inr (inr (inr x))) = absurd x

asked : Reach lower opened (handle_confirm lower (handle_click paid))
unfolding handle_click can_submit opened handle_toggle
asked =
    next
      (next
        (next
          (next
            (next
              (next (next here (fetched opened (ring ∷ [])))
                (toggled listed (codes "g1", codes "Elden Ring") (inl refl)))
              (picked_resolution chosen 1440 (inr (inl refl))))
            (picked_quality sharp (codes "High") (inr (inr (inl refl)))))
          (moved_high fine 1050 (omega arith) (omega arith)))
        (clicked paid))
      (confirmed (handle_click paid) refl refl)

sent-IsProper_example : All (IsProper lower) (handle_confirm lower (handle_click paid)).in_flight
sent-IsProper_example =
    sent-IsProper lower number_of_string (handle_confirm lower (handle_click paid)) asked
