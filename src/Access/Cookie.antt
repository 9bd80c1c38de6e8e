-- ===== src/Access/Cookie.antt =====
-- frontend/src/utils/cookies.client.ts.
pub mod Laws
use build_a_computer.Base.{Option, none, some, List, ◌∷◌, [], ◌++◌, drop, find?}
use build_a_computer.Base.Strings.{JsString, codes, split, join, starts_with}
use mathlib.Core.Option

-- The argument `cookies` is `document.cookie`; `none` is `null`.
unfoldable pub get_cookie : JsString → JsString → Option JsString
unfolding split join starts_with
get_cookie name cookies =
    Option.map (λ row. join (codes "=") (drop 1 (split (codes "=") row)))
      (find? (starts_with (name ++ codes "=")) (split (codes "; ") cookies))
