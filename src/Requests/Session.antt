-- ===== src/Requests/Session.antt =====
-- Signing in and out: features/authentication/hooks/signInHook.ts and signUpHook.ts, actions/auth.ts,
-- hooks/use-role.ts and hooks/use-current-user-id.ts of frontend/src.
pub mod Laws
use build_a_computer.Base.{ℕ, ◌*◌, Bool, true, false, Option, none, some, List, ◌∷◌, [], or_else}
use build_a_computer.Base.Strings.{JsString, codes}
use build_a_computer.Base.Json.{Json, null, obj, property}
use build_a_computer.Api.{ApiResult, ok, failed}
use build_a_computer.Api.Endpoints
use build_a_computer.Api.Endpoints.{Call}
use build_a_computer.Access.Cookie.{get_cookie}
use build_a_computer.Access.Token.{get_role_from_token, get_user_id_from_token}
use build_a_computer.Requests.{HookState, begin, settle_change}

-- The argument of `cookieStore.set`; a value of `none` is `undefined`.
pub record CookieOptions (N : Type 0) : Type 0 where
  pub name : JsString
  pub value : Option (Json N)
  pub max_age : ℕ
  pub path : JsString
  pub same_site : JsString

-- What `cookieStore` of Next.js does to the world.
pub record CookieStore (N S : Type 0) : Type 0 where
  pub set : CookieOptions N → S → S
  pub delete : JsString → S → S

-- What the promise of `signIn` settles with.
pub data SignedIn (N : Type 0) : Type 0 where
  accepted : (token : Option (Json N)) → SignedIn N
  refused : SignedIn N
  -- The TypeError of `null.token`.
  crashed : SignedIn N

-- `data.token`; the outer `none` is the TypeError.
unfoldable pub token_of : {N : Type 0} → Json N → Option (Option (Json N))
unfolding property
token_of null = none
token_of (obj fs) = some (property (codes "token") fs)
token_of _ = some none

module _ {N S : Type 0} (store : CookieStore N S) where
  unfoldable pub set_auth_cookie : Option (Json N) → S → S
  set_auth_cookie token = store.set (record {
    name = codes "access_token";
    value = token;
    max_age = 60 * 60 * 24 * 7;
    path = codes "/";
    same_site = codes "lax";
  })

  -- Without the redirect to the sign-in page.
  unfoldable pub logout : S → S
  logout = store.delete (codes "access_token")

  abbrev pub authenticate :
      HookState N (Unit {0}) → S → ApiResult N (Json N) → HookState N (Unit {0}) × S × SignedIn N
  authenticate h t (failed e) = (h, t, refused)
  authenticate h t (ok answer) = elim (token_of answer) [
    | none ↦ (h, t, crashed)
    | some token ↦ (h, set_auth_cookie token t, accepted token)
  ]

  module _ {P : Type 0} (send : Call P → S → ApiResult N (Json N) × S) where
    -- The common text of `signIn` and `signUp`.
    abbrev pub run_authentication :
        Call P → HookState N (Unit {0}) → S → HookState N (Unit {0}) × S × SignedIn N
    run_authentication call h s =
        let (result, t) = send call s in authenticate (settle_change result (begin h)) t result

    unfoldable pub sign_in :
        P → HookState N (Unit {0}) → S → HookState N (Unit {0}) × S × SignedIn N
    unfolding begin settle_change token_of set_auth_cookie
    sign_in dto = run_authentication (Endpoints.sign_in dto)

    unfoldable pub sign_up :
        P → HookState N (Unit {0}) → S → HookState N (Unit {0}) × S × SignedIn N
    unfolding begin settle_change token_of set_auth_cookie
    sign_up dto = run_authentication (Endpoints.sign_up dto)

-- The effect of `useRole`; `cookies` is `document.cookie`.
module _ {N : Type 0} (json_parse : JsString → Option (Json N)) where
  abbrev pub role_of_cookie : Option JsString → Json N
  role_of_cookie none = null
  role_of_cookie (some []) = null
  role_of_cookie (some (c ∷ t)) = get_role_from_token json_parse (c ∷ t)

  unfoldable pub use_role : JsString → Json N
  unfolding get_cookie
  use_role cookies = role_of_cookie (get_cookie (codes "access_token") cookies)

  abbrev user_of_cookie : Json N → Option JsString → Json N
  user_of_cookie previous none = previous
  user_of_cookie previous (some []) = previous
  user_of_cookie previous (some (c ∷ t)) = get_user_id_from_token json_parse (c ∷ t)

  -- The effect of `useCurrentUserId`, which keeps its cell where there is no token.
  unfoldable pub use_current_user_id : JsString → Json N → Json N
  unfolding get_cookie
  use_current_user_id cookies previous =
      user_of_cookie previous (get_cookie (codes "access_token") cookies)
