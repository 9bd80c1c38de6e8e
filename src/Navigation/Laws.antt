-- ===== src/Navigation/Laws.antt =====
-- The menu against the middleware.
use build_a_computer.Base.{
  ◌≡◌, refl, ◌↔◌, ◌⊎◌, inl, inr, Bool, true, false, Option, none, some, List, [], ◌∷◌, arith,
  if◌then◌else◌, In, All, All-In, map, filter, Bool-cases,
}
use build_a_computer.Base.Strings.{JsString}
use build_a_computer.Base.Json.{Json, is_falsy}
use build_a_computer.Access.{RouteItems, routes_infos}
use build_a_computer.Access.Middleware.{next, matched_route, is_missing, middleware}
use build_a_computer.Requests.Session.{role_of_cookie}
use build_a_computer.Navigation.{MenuItem, link, blocked, is_allowed, menu_item, menu}

-- A page is protected by its own route, and a public page by none.
route_matched :
    (r : RouteItems)
    → In r routes_infos
    → matched_route r.href ≡ (if r.is_public then none else some r)
unfolding matched_route
route_matched r i =
    All-In (λ (q : RouteItems). matched_route q.href ≡ (if q.is_public then none else some q))
      routes_infos
      (refl, (refl, (refl, (refl, (refl, (refl, (refl, (refl, (refl, (refl, tt)))))))))) r i

module _ {N : Type 0} (json_parse : JsString → Option (Json N)) (zero : N → Bool)
    (to_key : Json N → JsString) where
  -- A page is offered exactly when it is served.
  pub is_allowed-middleware :
      (r : RouteItems) (token : Option JsString)
      → In r routes_infos
      → (is_missing token ≡ true) ⊎ (is_falsy zero (role_of_cookie json_parse token) ≡ false)
      → (is_allowed zero (role_of_cookie json_parse token) r ≡ true)
        ↔ (middleware json_parse zero to_key r.href token ≡ next)
  unfolding is_allowed middleware
  is_allowed-middleware r none i h = ground (arith, route_matched r i)
  is_allowed-middleware r (some []) i h = ground (arith, route_matched r i)
  is_allowed-middleware r (some (c ∷ t)) i h = ground (arith, route_matched r i)

  -- A link leads to a page that is served, and a label stands for one that is not.
  abbrev pub IsHonest : Option JsString → MenuItem → Type 0
  IsHonest token (link _ href _) = middleware json_parse zero to_key href token ≡ next
  IsHonest token (blocked label) =
      (r : RouteItems) × In r routes_infos
      × (r.label ≡ label)
      × (¬ (middleware json_parse zero to_key r.href token ≡ next))

  item-IsHonest :
      (pathname : JsString) (r : RouteItems) (token : Option JsString)
      → In r routes_infos
      → (is_missing token ≡ true) ⊎ (is_falsy zero (role_of_cookie json_parse token) ≡ false)
      → IsHonest token (menu_item zero pathname (role_of_cookie json_parse token) r)
  item-IsHonest pathname r token i h =
      let (out, back) = is_allowed-middleware r token i h in
      elim (Bool-cases (is_allowed zero (role_of_cookie json_parse token) r)) [
        | inl good ↦ rw good (out good)
        | inr bad ↦ rw bad (r, i, refl, λ e. cc (bad, back e))
      ]

  All-map-filter :
      (P : MenuItem → Type 0) (f : RouteItems → MenuItem) (p : RouteItems → Bool)
      (rs : List RouteItems)
      → ((r : RouteItems) → In r rs → P (f r))
      → All P (map f (filter p rs))
  All-map-filter P f p [] h = tt
  All-map-filter P f p (r ∷ rs) h = elim (Bool-cases (p r)) [
    | inl e ↦ rw e (h r (inl refl), All-map-filter P f p rs (λ q i. h q (inr i)))
    | inr e ↦ rw e (All-map-filter P f p rs (λ q i. h q (inr i)))
  ]

  -- Where there is no token, or its role can be read, the menu and the middleware agree on every path:
  -- each link leads to a page that is served, and each label without a link stands for one that is not.
  pub menu-middleware :
      (pathname : JsString) (token : Option JsString)
      → (is_missing token ≡ true) ⊎ (is_falsy zero (role_of_cookie json_parse token) ≡ false)
      → All (IsHonest token) (menu zero pathname (role_of_cookie json_parse token))
  unfolding menu
  menu-middleware pathname token h =
      All-map-filter (IsHonest token) (menu_item zero pathname (role_of_cookie json_parse token))
        (λ r. r.is_in_navbar) routes_infos (λ r i. item-IsHonest pathname r token i h)
