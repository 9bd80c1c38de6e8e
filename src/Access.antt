-- ===== src/Access.antt =====
-- Who may see which page: frontend/src/types/jwt.ts, types/routes.ts, utils/redirect.ts. The token
-- (utils/jwt.ts), the cookies (utils/cookies.client.ts) and the middleware (middleware.ts) are the
-- modules below.
pub mod Laws
pub mod Base64
pub mod Token
pub mod Cookie
pub mod Middleware
use build_a_computer.Base.{
  Bool, true, false, ◌||◌, Option, none, some, List, [], ◌∷◌, ◌++◌, if◌then◌else◌, any,
}
use build_a_computer.Base.Strings.{JsString, codes, str_eq, starts_with}

pub data Role : Type 0 where
  admin supervisor common : Role

-- The string that a role is.
abbrev pub role_name : Role → JsString
role_name admin = codes "admin"
role_name supervisor = codes "supervisor"
role_name common = codes "common"

pub record RouteItems : Type 0 where
  pub label : JsString
  pub href : JsString
  pub allowed_roles : List Role
  pub is_public : Bool
  pub is_in_navbar : Bool

abbrev route : JsString → JsString → List Role → Bool → Bool → RouteItems
route l h rs p n = record {
  label = l;
  href = h;
  allowed_roles = rs;
  is_public = p;
  is_in_navbar = n;
}

abbrev everyone : List Role
everyone = admin ∷ supervisor ∷ common ∷ []

abbrev pub routes_infos : List RouteItems
routes_infos =
    route (codes "Sign In") (codes "/sign-in") [] true false
    ∷ route (codes "Sign Up") (codes "/sign-up") [] true false
    ∷ route (codes "Forgot Password") (codes "/forgot-password") [] true false
    ∷ route (codes "Home") (codes "/") everyone true true
    ∷ route (codes "Build") (codes "/build-pc") everyone true true
    ∷ route (codes "Users") (codes "/users") (admin ∷ supervisor ∷ []) false true
    ∷ route (codes "Benchmarks") (codes "/benchmarks") everyone true true
    ∷ route (codes "Create Benchmarks") (codes "/benchmarks/create") everyone false true
    ∷ route (codes "Hardware") (codes "/hardware") everyone true true
    ∷ route (codes "Games") (codes "/games") everyone true true
    ∷ []

unfoldable pub matches_route : JsString → JsString → Bool
unfolding str_eq starts_with
matches_route pathname href =
    if str_eq href (codes "/")
    then str_eq pathname (codes "/")
    else (str_eq pathname href || starts_with (href ++ codes "/") pathname)

-- `roleDefaultRedirect[key]`; `none` for a key that the record does not own.
unfoldable pub role_default_redirect : JsString → Option JsString
unfolding str_eq
role_default_redirect key =
    if str_eq key (role_name admin)
    then some (codes "/users")
    else if str_eq key (role_name supervisor)
    then some (codes "/users")
    else if str_eq key (role_name common)
    then some (codes "/benchmarks")
    else none

-- `allowedRoles.includes(s)`.
unfoldable pub includes_role : JsString → List Role → Bool
unfolding str_eq
includes_role s = any (λ r. str_eq (role_name r) s)
