-- ===== src/Examples/Access.antt =====
-- Tokens, cookies and paths.
use build_a_computer.Base.{
  ℕ, ◌≡◌, refl, ◌↔◌, true, false, Option, none, some, List, [], ◌∷◌, arith, All, any, if◌then◌else◌,
}
use build_a_computer.Base.Strings.{JsString, codes, Lacks, lookup, split, str_eq}
use build_a_computer.Base.Json.{Json, null, str, obj, end, field, property_or_null}
use build_a_computer.Access.{admin, supervisor, RouteItems}
use build_a_computer.Access.Base64.{atob, is_space, sextets, drop_padding, bytes_of}
use build_a_computer.Access.Token.{
  payload_segment, claim, get_role_from_token, get_user_id_from_token,
}
use build_a_computer.Access.Token.Laws.{is_url_digit, url_payload_unread}
use build_a_computer.Access.Cookie.{get_cookie}
use build_a_computer.Access.Cookie.Laws.{print_jar, IsCookie, get_cookie-print_jar}
use build_a_computer.Access.Middleware.{next, sign_in, matched_route, middleware}
use build_a_computer.Access.Middleware.Laws.{
  MayOpen, visit, middleware_protected, visit_unreadable, visit_valid,
}
use build_a_computer.Examples.Numbers.{naturals, is_zero}

-- A reader of the payloads of the examples: every text is the payload of an administrator, but "null".
abbrev admin_payload : Json ℕ
admin_payload =
    obj (field (codes "sub") (str (codes "u1")) (field (codes "role") (str (codes "admin")) end))

abbrev pub reader : JsString → Option (Json ℕ)
reader s = if str_eq s (codes "null") then some null else some admin_payload

abbrev pub key : Json ℕ → JsString
key (str s) = s
key _ = codes "other"

-- "{}" and "null" in base 64, between two other segments.
abbrev pub good_token : JsString
good_token = codes "e30.e30.sig"

abbrev bad_token : JsString
bad_token = codes "e30.bnVsbA==.sig"

pub good_role : get_role_from_token reader good_token ≡ str (codes "admin")
unfolding get_role_from_token claim payload_segment split atob is_space sextets drop_padding
    bytes_of property_or_null str_eq
good_role = refl

bad_role : get_role_from_token reader bad_token ≡ null
unfolding get_role_from_token claim payload_segment split atob is_space sextets drop_padding
    bytes_of property_or_null str_eq
bad_role = refl

abbrev users_route : RouteItems
users_route = record {
  label = codes "Users";
  href = codes "/users";
  allowed_roles = admin ∷ supervisor ∷ [];
  is_public = false;
  is_in_navbar = true;
}

users_matched : matched_route (codes "/users/7") ≡ some users_route
unfolding matched_route
users_matched = refl

middleware_protected_example :
    (middleware reader is_zero key (codes "/users/7") (some good_token) ≡ next)
    ↔ ((t : JsString) × (some good_token ≡ some t) × MayOpen reader is_zero key users_route t)
middleware_protected_example =
    middleware_protected reader is_zero key (codes "/users/7") (some good_token) users_route
      users_matched

visit_unreadable_example : visit reader is_zero key (some bad_token) 20 (codes "/") ≡ sign_in none
visit_unreadable_example =
    visit_unreadable reader is_zero key 20 (codes "/") bad_token (λ e. cc e) (rw bad_role refl)

visit_valid_example : visit reader is_zero key (some good_token) 1 (codes "/users/7") ≡ next
visit_valid_example =
    visit_valid reader is_zero key admin (codes "/users/7") good_token (λ s. refl) (λ e. cc e)
      good_role

-- "-" in the payload.
abbrev url_token : JsString
url_token = codes "e30.e-30.sig"

url_digit : any is_url_digit (payload_segment url_token) ≡ true
unfolding payload_segment split
url_digit = refl

url_payload_unread_example :
    (get_role_from_token reader url_token ≡ null) × (get_user_id_from_token reader url_token ≡ null)
url_payload_unread_example = url_payload_unread reader url_token url_digit

abbrev jar : List (JsString × JsString)
jar = (codes "theme", codes "dark") ∷ (codes "access_token", codes "a=b") ∷ []

lacks : Lacks 61 (codes "access_token")
lacks = ground arith

good : All IsCookie jar
good = ground arith

get_cookie-print_jar_example :
    get_cookie (codes "access_token") (print_jar jar) ≡ lookup (codes "access_token") jar
get_cookie-print_jar_example = get_cookie-print_jar (codes "access_token") jar lacks good
