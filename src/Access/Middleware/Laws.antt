-- ===== src/Access/Middleware/Laws.antt =====
-- What the middleware guarantees: who reaches a protected page, and where the others go.
use mathlib.Core.Option.{some-injective}
use build_a_computer.Base.{
  ℕ, zero, suc, ◌≡◌, refl, sym, ap, ◌∙◌, ◌≢◌, ◌↔◌, ◌⊎◌, inl, inr, Bool, true, false, Option, none,
  some, List, [], ◌∷◌, arith, Bool-cases, Option-cases, if◌then◌else◌,
}
use build_a_computer.Base.Strings.{JsString, codes}
use build_a_computer.Base.Json.{Json, null, bool, num, str, arr, obj, is_falsy}
use build_a_computer.Access.{
  Role, admin, supervisor, common, role_name, RouteItems, role_default_redirect, includes_role,
}
use build_a_computer.Access.Token.{get_role_from_token, claim, payload_segment}
use build_a_computer.Access.Base64.{atob, is_space}
use build_a_computer.Access.Middleware.{
  Response, next, sign_in, redirect, matched_route, is_some, allows, middleware,
}

includes_role-nil : (rs : List Role) → includes_role [] rs ≡ false
unfolding includes_role
includes_role-nil [] = refl
includes_role-nil (admin ∷ rs) = includes_role-nil rs
includes_role-nil (supervisor ∷ rs) = includes_role-nil rs
includes_role-nil (common ∷ rs) = includes_role-nil rs

allows-str :
    (N : Type 0) (r : RouteItems) (s : JsString)
    → allows {N = N} (some r) (str s) ≡ includes_role s r.allowed_roles
unfolding allows
allows-str N r s = refl

allows_lem :
    {N : Type 0} (r : RouteItems) (v : Json N)
    → allows (some r) v ≡ true
    → (s : JsString) × (v ≡ str s) × (includes_role s r.allowed_roles ≡ true)
unfolding allows
allows_lem r (str s) h = (s, refl, h)
allows_lem r null h = cc
allows_lem r (bool _) h = cc
allows_lem r (num _) h = cc
allows_lem r (arr _) h = cc
allows_lem r (obj _) h = cc

not-falsy :
    {N : Type 0} (is_zero : N → Bool) (s : JsString) (rs : List Role)
    → includes_role s rs ≡ true
    → is_falsy is_zero (str s) ≡ false
not-falsy is_zero [] rs h = ground (arith, includes_role-nil rs)
not-falsy is_zero (c ∷ s) rs h = refl

module _ {N : Type 0} (json_parse : JsString → Option (Json N)) (is_zero : N → Bool)
    (to_key : Json N → JsString) where
  abbrev role_of : JsString → Json N
  role_of = get_role_from_token json_parse

  -- The role of the token is a string among the route's roles.
  abbrev pub MayOpen : RouteItems → JsString → Type 0
  MayOpen r token =
      (s : JsString) × (role_of token ≡ str s) × (includes_role s r.allowed_roles ≡ true)

  role_of-nil : role_of [] ≡ null
  unfolding get_role_from_token claim atob payload_segment is_space
  role_of-nil = refl

  unfoldable pub serve : Option JsString → JsString → Response
  serve token pathname = middleware json_parse is_zero to_key pathname token

  serve_protected :
      (pathname : JsString) (c : ℕ) (t : JsString) (r : RouteItems)
      → matched_route pathname ≡ some r
      → serve (some (c ∷ t)) pathname ≡ next
      → MayOpen r (c ∷ t)
  unfolding serve middleware
  serve_protected p c t r e h = elim (Bool-cases (allows (some r) (role_of (c ∷ t)))) [
    | inl good ↦ allows_lem r (role_of (c ∷ t)) good
    | inr bad ↦ ground arith
  ]

  serve_of_MayOpen :
      (pathname : JsString) (c : ℕ) (t s : JsString) (r : RouteItems)
      → matched_route pathname ≡ some r
      → role_of (c ∷ t) ≡ str s
      → includes_role s r.allowed_roles ≡ true
      → serve (some (c ∷ t)) pathname ≡ next
  unfolding serve middleware
  serve_of_MayOpen p c t s r e h k =
      ground (arith, not-falsy is_zero s r.allowed_roles k, allows-str N r s)

  -- A path that a protected route matches is served exactly to a token whose role is a string
  -- among the route's roles.
  pub middleware_protected :
      (pathname : JsString) (token : Option JsString) (r : RouteItems)
      → matched_route pathname ≡ some r
      → (middleware json_parse is_zero to_key pathname token ≡ next)
        ↔ ((t : JsString) × (token ≡ some t) × MayOpen r t)
  unfolding middleware serve
  middleware_protected p none r e = (λ h. ground arith, λ h. ground (arith, h.1))
  middleware_protected p (some []) r e =
      (λ h. ground arith, λ h. ground (arith, h.1, h.2.1, role_of-nil))
  middleware_protected p (some (c ∷ t)) r e = (
    λ h. (c ∷ t, refl, serve_protected p c t r e h),
    λ h.
        let same : h.0 ≡ (c ∷ t) = sym (some-injective _ _ h.1) in
        serve_of_MayOpen p c t h.2.0 r e (ap role_of (sym same) ∙ h.2.1) h.2.2,
  )

  -- The browser follows at most `n` redirects from a path.
  unfoldable pub visit : Option JsString → ℕ → JsString → Response
  visit token zero p = serve token p
  visit token (suc n) p = elim (serve token p) [
    | next ↦ next
    | sign_in _ ↦ visit token n (codes "/sign-in")
    | redirect none ↦ visit token n (codes "/undefined")
    | redirect (some q) ↦ visit token n q
  ]

  middleware_unreadable :
      (pathname token : JsString)
      → token ≢ []
      → is_falsy is_zero (role_of token) ≡ true
      → middleware json_parse is_zero to_key pathname (some token) ≡ sign_in none
  unfolding middleware
  middleware_unreadable p [] n h = absurd (n refl)
  middleware_unreadable p (c ∷ t) n h = ground arith

  -- A token that is not empty and whose role is falsy, as where it cannot be read, is redirected
  -- without end: from every path, however many redirects are followed, the answer is a redirect to
  -- the sign-in page.
  pub visit_unreadable :
      (n : ℕ) (pathname token : JsString)
      → token ≢ []
      → is_falsy is_zero (role_of token) ≡ true
      → visit (some token) n pathname ≡ sign_in none
  unfolding visit serve
  visit_unreadable zero p token h k = middleware_unreadable p token h k
  visit_unreadable (suc n) p token h k =
      rw (middleware_unreadable p token h k, visit)
        (visit_unreadable n (codes "/sign-in") token h k)

  sign_in_served : middleware json_parse is_zero to_key (codes "/sign-in") none ≡ next
  unfolding middleware matched_route
  sign_in_served = refl

  -- With no token a path that a protected route matches is traded for the sign-in page with the
  -- way back to it, every other path is served, and following one redirect ends at a page that is
  -- served.
  pub middleware_signed_out :
      (pathname : JsString)
      → (middleware json_parse is_zero to_key pathname none
          ≡ (if is_some (matched_route pathname) then sign_in (some pathname) else next))
        × (visit none 1 pathname ≡ next)
  unfolding middleware visit serve
  middleware_signed_out p = elim (Option-cases (matched_route p)) [
    | inl free ↦ (ground arith, ground arith)
    | inr (r, closed) ↦ (ground arith, ground (arith, sign_in_served))
  ]

  -- The page that `roleDefaultRedirect` gives a role.
  abbrev pub home : Role → JsString
  home admin = codes "/users"
  home supervisor = codes "/users"
  home common = codes "/benchmarks"

  home_lem : (r : Role) → role_default_redirect (role_name r) ≡ some (home r)
  unfolding role_default_redirect
  home_lem admin = refl
  home_lem supervisor = refl
  home_lem common = refl

  home_served :
      (r : Role) (c : ℕ) (t : JsString)
      → role_of (c ∷ t) ≡ str (role_name r)
      → serve (some (c ∷ t)) (home r) ≡ next
  unfolding serve middleware matched_route allows includes_role
  home_served admin c t e = rw e
  home_served supervisor c t e = rw e
  home_served common c t e = rw e

  serve_valid :
      (r : Role) (pathname : JsString) (c : ℕ) (t : JsString)
      → (to_key (str (role_name r)) ≡ role_name r)
      → role_of (c ∷ t) ≡ str (role_name r)
      → (serve (some (c ∷ t)) pathname ≡ next)
        ⊎ (serve (some (c ∷ t)) pathname ≡ redirect (some (home r)))
  unfolding serve middleware
  serve_valid admin p c t k e = rw (e, k, home_lem admin) (ground arith)
  serve_valid supervisor p c t k e = rw (e, k, home_lem supervisor) (ground arith)
  serve_valid common p c t k e = rw (e, k, home_lem common) (ground arith)

  -- A token that is not empty, with one of the three roles, is served after one redirect at most,
  -- from every path, where a string is its own property key.
  pub visit_valid :
      (r : Role) (pathname token : JsString)
      → ((s : JsString) → to_key (str s) ≡ s)
      → token ≢ []
      → role_of token ≡ str (role_name r)
      → visit (some token) 1 pathname ≡ next
  unfolding visit
  visit_valid r p [] k n e = absurd (n refl)
  visit_valid r p (c ∷ t) k n e = elim (serve_valid r p c t (k (role_name r)) e) [
    | inl served ↦ rw (served, visit)
    | inr sent ↦ rw (sent, visit) (home_served r c t e)
  ]
