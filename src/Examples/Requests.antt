-- ===== src/Examples/Requests.antt =====
-- A hook, a page and a session.
use build_a_computer.Base.{ℕ, suc, ◌≡◌, refl, inl, Option, none, some, List, [], ◌∷◌, ◌++◌, arith}
use build_a_computer.Base.Strings.{JsString, codes, lookup, Lacks}
use build_a_computer.Base.Json.{Json, str, obj, end, field}
use build_a_computer.Access.Cookie.{get_cookie}
use build_a_computer.Access.Cookie.Laws.{print_jar, get_cookie-print_jar}
use build_a_computer.Api.{
  ApiError, other_error, ApiResult, ok, failed, Request, prepare, request_for, with_payload,
}
use build_a_computer.Api.Endpoints
use build_a_computer.Api.Endpoints.{Call}
use build_a_computer.Requests.{idle, begin, settle}
use build_a_computer.Requests.Traces.{
  Running, start, finish, here, next, IsSettled, Reach-IsSettled, Event, began, settled,
}
use build_a_computer.Requests.Pages.{success, danger, ListPage, create, user_texts, error_text}
use build_a_computer.Requests.Pages.Attempts.{Attempt, session}
use build_a_computer.Requests.Pages.Laws.{session-toasts}
use build_a_computer.Requests.Session.{CookieStore, accepted, token_of, sign_in}
use build_a_computer.Requests.Session.Laws.{IsStored, IsTokenText, sign_in-authorizes}
use build_a_computer.Examples.Numbers.{naturals, is_zero}

abbrev quiet : Running ℕ ℕ
quiet = record { cells = idle 0; waiting = 0 }

abbrev one : Running ℕ ℕ
one = record { cells = begin quiet.cells; waiting = 1 }

abbrev two : Running ℕ ℕ
two = record { cells = begin one.cells; waiting = 2 }

abbrev answered : Running ℕ ℕ
answered = record { cells = settle (ok 7) two.cells; waiting = 1 }

Reach-IsSettled_example : IsSettled answered
Reach-IsSettled_example =
    Reach-IsSettled 0 answered
      (next (next (next here (start quiet)) (start one)) (finish two 1 (ok 7) refl))

abbrev trace : List (Event ℕ ℕ)
trace = began ∷ began ∷ settled (ok 2) ∷ settled (ok 1) ∷ []

abbrev page : ListPage ℕ ℕ
page = record {
  items = idle [];
  creating = idle tt;
  updating = idle tt;
  removing = idle tt;
  toasts = [];
}

abbrev accept : ℕ → ApiResult ℕ ℕ × ℕ
accept s = (ok s, suc s)

abbrev items : ℕ → ApiResult ℕ (List ℕ) × ℕ
items s = (ok (s ∷ []), s)

abbrev lost : ApiError ℕ
lost = other_error (codes "lost")

abbrev refuse : ℕ → ApiResult ℕ ℕ × ℕ
refuse s = (failed lost, s)

-- Two accounts that are refused, and one that is accepted.
abbrev attempts : List (Attempt ℕ ℕ ℕ ℕ)
attempts =
    record { change = create; call = refuse; list = items }
    ∷ record { change = create; call = refuse; list = items }
    ∷ record { change = create; call = accept; list = items }
    ∷ []

session-toasts_example :
    (session is_zero user_texts attempts page 4).0.toasts
    ≡ danger (user_texts create).trouble (str (user_texts create).fallback)
      ∷ danger (user_texts create).trouble (str (codes "lost"))
      ∷ success (user_texts create).done
      ∷ []
unfolding error_text
session-toasts_example = session-toasts is_zero user_texts attempts page 4

-- A world that is the access token, as the only cookie of the document.
abbrev document_cookie : Option JsString → JsString
document_cookie none = []
document_cookie (some t) = print_jar ((codes "access_token", t) ∷ [])

abbrev text_of : Option (Json ℕ) → Option JsString
text_of (some (str t)) = some t
text_of _ = none

abbrev store : CookieStore ℕ (Option JsString)
store = record { set = λ o _. text_of o.value; delete = λ _ _. none }

token-Lacks : (t : JsString) → IsTokenText t → Lacks 59 t
token-Lacks [] h = tt
token-Lacks (c ∷ t) (h, hs) = (ground arith, token-Lacks t hs)

token-read :
    (t : JsString)
    → IsTokenText t
    → get_cookie (codes "access_token") (document_cookie (some t)) ≡ some t
unfolding lookup
token-read t h =
    get_cookie-print_jar (codes "access_token") ((codes "access_token", t) ∷ []) lacks_equals
      ((lacks_semicolon, token-Lacks t h, lacks_equals), tt)
  where
    lacks_equals : Lacks 61 (codes "access_token")
    lacks_equals = ground arith

    lacks_semicolon : Lacks 59 (codes "access_token")
    lacks_semicolon = ground arith

store-IsStored : IsStored store document_cookie
unfolding get_cookie
store-IsStored = record { stored = λ o t s _ e h. rw e (token-read t h); deleted = λ s. refl }

-- The server gives every visitor one token.
abbrev given : Json ℕ
given = obj (field (codes "token") (str (codes "t.1")) end)

abbrev give : Call JsString → Option JsString → ApiResult ℕ (Json ℕ) × Option JsString
give c s = (ok given, s)

abbrev as_text : JsString → JsString
as_text t = t

abbrev games : Call JsString
games = Endpoints.get_games

abbrev games_request : JsString → Request
games_request cookies = request_for as_text none cookies games.endpoint games.options none

games_prepared :
    (cookies : JsString)
    → prepare as_text none cookies {N = ℕ} games.endpoint games.options
      ≡ inl (games_request cookies)
unfolding prepare with_payload Endpoints.get_games
games_prepared cookies = refl

given_token : token_of given ≡ some (some (str (codes "t.1")))
unfolding token_of
given_token = refl

abbrev in_session : Option JsString
in_session = (sign_in store give (codes "dto") (idle tt) none).1

is_token : IsTokenText (codes "t.1")
is_token = ground arith

sign_in-authorizes_example :
    ((sign_in store give (codes "dto") (idle tt) none).2 ≡ accepted (some (str (codes "t.1"))))
    × (lookup (codes "Authorization") (games_request (document_cookie in_session)).headers
        ≡ some (codes "Bearer " ++ codes "t.1"))
sign_in-authorizes_example =
    sign_in-authorizes store give document_cookie store-IsStored as_text none (codes "dto")
      (idle tt) none none given 116 (codes ".1") games (games_request (document_cookie in_session))
      is_token refl given_token (games_prepared (document_cookie in_session))
