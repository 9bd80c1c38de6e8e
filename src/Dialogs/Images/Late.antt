-- ===== src/Dialogs/Images/Late.antt =====
-- An image that is read too late.
use build_a_computer.Base.{ℕ, ◌≡◌, Option, none, some, List, [], ◌∷◌}
use build_a_computer.Base.Number.{JsNumber}
use build_a_computer.Forms.{GameFormValues}
use build_a_computer.Dialogs.Images.{GameDialog, empty_game, opened, payload_of, Reach}

module _ {N : Type 0} (d : JsNumber N) where
  -- A new dialog that was filled in with v, and in which the file a was chosen.
  abbrev with_file : GameFormValues → List ℕ → GameDialog N
  with_file v a = record (opened empty_game none) {
    values = v;
    reading = a ∷ [];
    chosen = some a ∷ [];
  }

  -- That the dialog can send the game v with the image i, when o was the last that was chosen in it.
  abbrev pub Sends : GameFormValues → Option (List ℕ) → Option (List ℕ) → Type 0
  Sends v i o =
      (s : GameDialog N) × (earlier : List (Option (List ℕ))) × Reach d (opened empty_game none) s
      × (s.sent ≡ payload_of d v i ∷ [])
      × (s.chosen ≡ o ∷ earlier)

  abbrev waiting : GameFormValues → Option (List ℕ) → List ℕ → List (Option (List ℕ)) → GameDialog N
  waiting v i a chosen = record (opened empty_game none) {
    values = v;
    img = i;
    reading = a ∷ [];
    chosen = chosen;
  }
