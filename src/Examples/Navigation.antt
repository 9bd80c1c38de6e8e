-- ===== src/Examples/Navigation.antt =====
-- The menu of an administrator.
use build_a_computer.Base.{◌≡◌, refl, inr, false, some, All}
use build_a_computer.Base.Strings.{codes}
use build_a_computer.Base.Json.{is_falsy}
use build_a_computer.Requests.Session.{role_of_cookie}
use build_a_computer.Navigation.{menu}
use build_a_computer.Navigation.Laws.{IsHonest, menu-middleware}
use build_a_computer.Examples.Numbers.{is_zero}
use build_a_computer.Examples.Access.{reader, key, good_token, good_role}

signed_in : is_falsy is_zero (role_of_cookie reader (some good_token)) ≡ false
signed_in = rw good_role refl

menu-middleware_example :
    All
      (IsHonest reader is_zero key (some good_token))
      (menu is_zero (codes "/users") (role_of_cookie reader (some good_token)))
menu-middleware_example =
    menu-middleware reader is_zero key (codes "/users") (some good_token) (inr signed_in)
