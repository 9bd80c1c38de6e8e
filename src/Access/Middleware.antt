-- ===== src/Access/Middleware.antt =====
-- frontend/src/middleware.ts.
pub mod Laws
use build_a_computer.Base.{
  Bool, true, false, not, ◌&&◌, Option, none, some, ◌∷◌, [], find?, if◌then◌else◌, or_else,
}
use build_a_computer.Base.Strings.{JsString, codes}
use build_a_computer.Base.Json.{Json, str, is_falsy}
use build_a_computer.Access.{
  RouteItems, routes_infos, matches_route, role_default_redirect, includes_role,
}
use build_a_computer.Access.Token.{get_role_from_token}

-- What the middleware answers: the page, the sign-in page with the path to return to, or a path.
-- `redirect none` is `new URL(undefined, …)`.
pub data Response : Type 0 where
  next : Response
  sign_in : (callback_url : Option JsString) → Response
  redirect : Option JsString → Response

-- The predicate that `routesInfos.find` is given.
abbrev pub protects : JsString → RouteItems → Bool
protects pathname r = not r.is_public && matches_route pathname r.href

unfoldable pub matched_route : JsString → Option RouteItems
unfolding matches_route
matched_route pathname = find? (protects pathname) routes_infos

-- `!token`: no cookie, or an empty one.
abbrev pub is_missing : Option JsString → Bool
is_missing none = true
is_missing (some []) = true
is_missing (some _) = false

abbrev pub is_some {ℓ} : {A : Type ℓ} → Option A → Bool
is_some none = false
is_some (some _) = true

-- `matchedRoute.allowedRoles.includes(role)`.
unfoldable pub allows : {N : Type 0} → Option RouteItems → Json N → Bool
unfolding includes_role
allows (some r) (str s) = includes_role s r.allowed_roles
allows _ _ = false

-- `json_parse` is `JSON.parse`, `zero` tells the numbers 0 and NaN, and `to_key` is the conversion
-- of a value to a property key.
module _ {N : Type 0} (json_parse : JsString → Option (Json N)) (zero : N → Bool)
    (to_key : Json N → JsString) where
  unfoldable pub middleware : JsString → Option JsString → Response
  middleware pathname token =
      let matched = matched_route pathname in
      let role = get_role_from_token json_parse (or_else token []) in
      if is_some matched && is_missing token
      then sign_in (some pathname)
      else if is_missing token
      then next
      else if is_falsy zero role
      then sign_in none
      else if is_some matched && not (allows matched role)
      then redirect (role_default_redirect (to_key role))
      else next
