-- ===== src/BackButton.antt =====
-- The button that goes back: frontend/src/components/back-button.tsx. The two variables of the module
-- are a record; `track` is the effect that runs when a button is mounted or the path has changed.
pub mod Laws
use build_a_computer.Base.{ℕ, zero, suc, Option, none, some, List, [], ◌∷◌, ltb, if◌then◌else◌}
use build_a_computer.Base.Strings.{JsString, str_eq}

pub record Tracker : Type 0 where
  pub navigation_count : ℕ
  pub last_seen_path : Option JsString

abbrev pub loaded : Tracker
loaded = record { navigation_count = 0; last_seen_path = none }

abbrev pub track_from : JsString → ℕ → Option JsString → Tracker
track_from pathname n none = record { navigation_count = n; last_seen_path = some pathname }
track_from pathname n (some seen) =
    if str_eq pathname seen
    then record { navigation_count = n; last_seen_path = some seen }
    else record { navigation_count = suc n; last_seen_path = some pathname }

unfoldable pub track : JsString → Tracker → Tracker
track pathname t = track_from pathname t.navigation_count t.last_seen_path

-- The effects since the application was loaded, the first of them first.
abbrev pub tracked : List JsString → Tracker → Tracker
tracked [] t = t
tracked (p ∷ ps) t = tracked ps (track p t)

-- What is asked of the router.
pub data Move : Type 0 where
  back : Move
  push : (href : JsString) → Move

unfoldable pub handle_press : JsString → Tracker → Move
handle_press fallback_href t = if ltb 0 t.navigation_count then back else push fallback_href
