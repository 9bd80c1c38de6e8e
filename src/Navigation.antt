-- ===== src/Navigation.antt =====
-- The items of the menu: frontend/src/components/hamburger-menu.tsx and components/navbar.tsx. `zero`
-- tells the numbers 0 and NaN, and `role` is what `useRole` gives.
pub mod Laws
use build_a_computer.Base.{
  Bool, true, false, not, ◌&&◌, ◌||◌, none, some, List, [], ◌∷◌, if◌then◌else◌, map, filter,
}
use build_a_computer.Base.Strings.{JsString, codes, starts_with}
use build_a_computer.Base.Json.{Json, is_falsy}
use build_a_computer.Access.{RouteItems, routes_infos, matches_route}
use build_a_computer.Access.Middleware.{allows}

-- A link that closes the menu, or the label of a page that is not for the user.
pub data MenuItem : Type 0 where
  link : (label href : JsString) → (is_active : Bool) → MenuItem
  blocked : (label : JsString) → MenuItem

module _ {N : Type 0} (zero : N → Bool) where
  unfoldable pub is_allowed : Json N → RouteItems → Bool
  unfolding allows
  is_allowed role item = item.is_public || (not (is_falsy zero role) && allows (some item) role)

  abbrev pub menu_item : JsString → Json N → RouteItems → MenuItem
  menu_item pathname role item =
      if is_allowed role item
      then link item.label item.href (matches_route pathname item.href)
      else blocked item.label

  unfoldable pub menu : JsString → Json N → List MenuItem
  unfolding is_allowed matches_route
  menu pathname role = map (menu_item pathname role) (filter (λ r. r.is_in_navbar) routes_infos)

  -- The older bar, which hides what the role may not see.
  unfoldable pub visible_items : Json N → List RouteItems
  unfolding allows
  visible_items role =
      filter (λ item. not (is_falsy zero role) && allows (some item) role) routes_infos

abbrev pub is_highlighted : JsString → RouteItems → Bool
is_highlighted pathname item = starts_with item.href pathname
