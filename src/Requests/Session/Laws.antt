-- ===== src/Requests/Session/Laws.antt =====
-- What signing in does to the requests that follow.
use mathlib.Core.Path.{subst}
use build_a_computer.Base.{
  ℕ, ◌≡◌, refl, ap, ◌∙◌, Bool, true, Option, none, some, ◌∷◌, ◌++◌, inl, All, leb, ◌==◌, ◌&&◌, ◌||◌,
}
use build_a_computer.Base.Strings.{JsString, codes, lookup}
use build_a_computer.Base.Json.{Json, str}
use build_a_computer.Api.{ApiResult, ok, Request, prepare}
use build_a_computer.Api.Laws.{first_some, bearer, last_value, prepare_lem}
use build_a_computer.Api.Endpoints
use build_a_computer.Api.Endpoints.{Call}
use build_a_computer.Access.Cookie.{get_cookie}
use build_a_computer.Requests.{HookState, begin, settle_change}
use build_a_computer.Requests.Session.{
  CookieOptions, CookieStore, SignedIn, accepted, token_of, set_auth_cookie, logout, sign_in,
  authenticate,
}

-- A code unit of a JWT, which a cookie holds as it is: a letter, a digit, "-", "." or "_".
abbrev pub is_token_code : ℕ → Bool
is_token_code c =
    (leb 65 c && leb c 90)
    || (leb 97 c && leb c 122)
    || (leb 48 c && leb c 57)
    || c == 45
    || c == 46
    || c == 95

abbrev pub IsTokenText : JsString → Type 0
IsTokenText = All (λ c. is_token_code c ≡ true)

-- The cookies of the document follow the cookie store: the text of a token that is set as the access
-- token is read there, and once that is deleted none is.
pub record IsStored {N S : Type 0} (store : CookieStore N S) (cookies : S → JsString) : Type 0 where
  pub stored :
      (o : CookieOptions N) (t : JsString) (s : S)
      → o.name ≡ codes "access_token"
      → o.value ≡ some (str t)
      → IsTokenText t
      → get_cookie (codes "access_token") (cookies (store.set o s)) ≡ some t
  pub deleted :
      (s : S)
      → get_cookie (codes "access_token") (cookies (store.delete (codes "access_token") s)) ≡ none

module _ {N S P : Type 0} (store : CookieStore N S)
    (send : Call P → S → ApiResult N (Json N) × S) where
  authenticate-ok :
      (h : HookState N (Unit {0})) (t : S) (answer token : Json N)
      → token_of answer ≡ some (some token)
      → authenticate store h t (ok answer)
        ≡ (h, set_auth_cookie store (some token) t, accepted (some token))
  authenticate-ok h t answer token e = rw (authenticate, e) refl

  sign_in-eq :
      (dto : P) (h : HookState N (Unit {0})) (s t : S) (answer : Json N) (token : Json N)
      → send (Endpoints.sign_in dto) s ≡ (ok answer, t)
      → token_of answer ≡ some (some token)
      → sign_in store send dto h s ≡ (
        settle_change (ok answer) (begin h),
        set_auth_cookie store (some token) t,
        accepted (some token),
      )
  unfolding sign_in
  sign_in-eq dto h s t answer token e e' =
      ap
        (λ (r : ApiResult N (Json N) × S). authenticate store (settle_change r.0 (begin h)) r.1 r.0)
        e
      ∙ authenticate-ok (settle_change (ok answer) (begin h)) t answer token e'

  module _ (cookies : S → JsString) (is_stored : IsStored store cookies) (stringify : P → JsString)
      (host : Option JsString) where
    bearer_of_world :
        (s : S) (token : Option JsString) (call : Call P) (req : Request)
        → get_cookie (codes "access_token") (cookies s) ≡ token
        → prepare stringify host (cookies s) {N = N} call.endpoint call.options ≡ inl req
        → lookup (codes "Authorization") req.headers
          ≡ first_some (bearer token) (last_value (codes "Authorization") call.options.headers)
    bearer_of_world s token call req e p =
        (prepare_lem stringify host (cookies s) call.endpoint call.options req p).2
        ∙ ap (λ k. first_some (bearer k) (last_value (codes "Authorization") call.options.headers))
            e

    -- An accepted sign-in returns the token of the answer, and every request that is prepared after it
    -- carries that token, where it is the text of a JWT and the document shows what the cookie store was given.
    pub sign_in-authorizes :
        (dto : P) (h : HookState N (Unit {0})) (s t : S) (answer : Json N) (c : ℕ)
        (token : JsString) (call : Call P) (req : Request)
        → IsTokenText (c ∷ token)
        → send (Endpoints.sign_in dto) s ≡ (ok answer, t)
        → token_of answer ≡ some (some (str (c ∷ token)))
        → prepare stringify host
            (cookies (sign_in store send dto h s).1)
            {N = N}
            call.endpoint
            call.options
          ≡ inl req
        → ((sign_in store send dto h s).2 ≡ accepted (some (str (c ∷ token))))
          × (lookup (codes "Authorization") req.headers ≡ some (codes "Bearer " ++ (c ∷ token)))
    unfolding first_some set_auth_cookie
    sign_in-authorizes dto h s t answer c token call req w e e' p =
        let same = sign_in-eq dto h s t answer (str (c ∷ token)) e e' in
        let world = set_auth_cookie store (some (str (c ∷ token))) t in
        let q =
          subst
            (λ u. prepare stringify host (cookies u) {N = N} call.endpoint call.options ≡ inl req)
            (ap (λ (r : HookState N (Unit {0}) × S × SignedIn N). r.1) same) p in
        (
          ap (λ (r : HookState N (Unit {0}) × S × SignedIn N). r.2) same,
          bearer_of_world world (some (c ∷ token)) call req
              (is_stored.stored _ (c ∷ token) t refl refl w) q,
        )

    -- A request that is prepared after signing out carries no token but the one that its caller
    -- sets, where the document shows what the cookie store was told.
    pub logout-unauthorizes :
        (s : S) (call : Call P) (req : Request)
        → prepare stringify host (cookies (logout store s)) {N = N} call.endpoint call.options
          ≡ inl req
        → lookup (codes "Authorization") req.headers
          ≡ last_value (codes "Authorization") call.options.headers
    unfolding first_some logout
    logout-unauthorizes s call req p =
        bearer_of_world (logout store s) none call req (is_stored.deleted s) p
