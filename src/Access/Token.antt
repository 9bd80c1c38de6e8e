-- ===== src/Access/Token.antt =====
-- frontend/src/utils/jwt.ts. `JSON.parse` is a parameter; `none` is its SyntaxError.
pub mod Laws
use build_a_computer.Base.{Option, none, some, or_else, get_elem?, ◌∷◌, []}
use build_a_computer.Base.Strings.{JsString, codes, split}
use build_a_computer.Base.Json.{Json, null, property_or_null}
use build_a_computer.Access.Base64.{atob, ◌>>=◌}

-- `token.split('.')[1]`, as `atob` reads it: `undefined` becomes its name.
unfoldable pub payload_segment : JsString → JsString
unfolding split
payload_segment token = or_else (get_elem? (split (codes ".") token) 1) (codes "undefined")

module _ {N : Type 0} (json_parse : JsString → Option (Json N)) where
  -- The `try` block; `none` is an exception.
  unfoldable pub claim : JsString → JsString → Option (Json N)
  claim name token = do
    text ← atob (payload_segment token)
    payload ← json_parse text
    property_or_null name payload

  unfoldable pub get_role_from_token : JsString → Json N
  get_role_from_token token = or_else (claim (codes "role") token) null

  unfoldable pub get_user_id_from_token : JsString → Json N
  get_user_id_from_token token = or_else (claim (codes "sub") token) null
