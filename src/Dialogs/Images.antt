-- ===== src/Dialogs/Images.antt =====
-- The dialogs of a game, with an image that is read while they are open:
-- frontend/src/features/games/components/create-game-modal.tsx and update-game-modal.tsx. The controls
-- are disabled while a request is waited for, but a file that is being read goes on.
pub mod Late
use build_a_computer.Base.{
  ℕ, suc, Bool, true, false, ◌≡◌, Option, none, some, List, [], ◌∷◌, ◌++◌, if◌then◌else◌,
}
use build_a_computer.Base.Strings.{JsString}
use build_a_computer.Base.Number.{JsNumber}
use build_a_computer.Forms.{GameFormValues, game_schema}

-- `CreateGameRequestDto` and `UpdateGameRequestDto`, which have the same properties.
pub record GameRequestDto (N : Type 0) : Type 0 where
  pub name : JsString
  pub img : Option (List ℕ)
  pub necessary_disk : N

-- The cells of a dialog, whether it is on the page, the files that are being read, what was chosen so far
-- and what was sent, the latest first.
pub record GameDialog (N : Type 0) : Type 0 where
  pub values : GameFormValues
  pub img : Option (List ℕ)
  pub reading : List (List ℕ)
  pub chosen : List (Option (List ℕ))
  pub is_busy : Bool
  pub is_mounted : Bool
  pub sent : List (GameRequestDto N)

abbrev pub empty_game : GameFormValues
empty_game = record { name = []; necessary_disk = [] }

module _ {N : Type 0} where
  -- A dialog that makes a game, as it is first shown, and one that changes a game with these values.
  abbrev pub opened : GameFormValues → Option (List ℕ) → GameDialog N
  opened v i = record {
    values = v;
    img = i;
    reading = [];
    chosen = [];
    is_busy = false;
    is_mounted = true;
    sent = [];
  }

  -- `handleImageChange` up to its `await`, and after it.
  unfoldable pub handle_image_change : Option (List ℕ) → GameDialog N → GameDialog N
  handle_image_change none s = record s { img = none; chosen = none ∷ s.chosen }
  handle_image_change (some file) s = record s {
    reading = file ∷ s.reading;
    chosen = some file ∷ s.chosen;
  }

  unfoldable pub image_read : List (List ℕ) → List ℕ → GameDialog N → GameDialog N
  image_read rest file s = record s { reading = rest; img = some file }

module _ {N : Type 0} (d : JsNumber N) where
  abbrev pub payload_of : GameFormValues → Option (List ℕ) → GameRequestDto N
  payload_of v i = record { name = v.name; img = i; necessary_disk = d.of_string v.necessary_disk }

  -- `handleSubmit(onSubmit)` up to the `await`.
  unfoldable pub submit : GameDialog N → GameDialog N
  submit s =
      if game_schema d s.values
      then record s { is_busy = true; sent = payload_of s.values s.img ∷ s.sent }
      else s

  -- What follows it. After a success the page fetches the list again, and shows nothing but a spinner until
  -- it has it, so that this dialog is gone before its reset.
  unfoldable pub settle : (is_success : Bool) → GameDialog N → GameDialog N
  settle true s = record s { is_busy = false; is_mounted = false }
  settle false s = record s { is_busy = false }

  pub data Step : GameDialog N → GameDialog N → Type 0 where
    typed :
        (s : GameDialog N) (v : GameFormValues)
        → s.is_mounted ≡ true
        → s.is_busy ≡ false
        → Step s (record s { values = v })
    picked :
        (s : GameDialog N) (o : Option (List ℕ))
        → s.is_mounted ≡ true
        → s.is_busy ≡ false
        → Step s (handle_image_change o s)
    submitted : (s : GameDialog N) → s.is_mounted ≡ true → s.is_busy ≡ false → Step s (submit s)
    settled :
        (s : GameDialog N) (is_success : Bool)
        → s.is_mounted ≡ true
        → s.is_busy ≡ true
        → Step s (settle is_success s)
    read :
        (s : GameDialog N) (before after : List (List ℕ)) (file : List ℕ)
        → s.is_mounted ≡ true
        → s.reading ≡ before ++ (file ∷ after)
        → Step s (image_read (before ++ after) file s)

  pub data Reach (o : GameDialog N) : GameDialog N → Type 0 where
    here : Reach o o
    next : {s t : GameDialog N} → Reach o s → Step s t → Reach o t
