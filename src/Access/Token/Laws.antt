-- ===== src/Access/Token/Laws.antt =====
-- What utils/jwt.ts makes of a token: a JWT is base64url, and `atob` reads base64.
use build_a_computer.Base.{
  ℕ, ◌%◌, ◌≡◌, refl, Bool, true, false, not, ◌||◌, Option, none, some, [], ◌∷◌, arith, ◌==◌,
  if◌then◌else◌, length, filter, any,
}
use build_a_computer.Base.Strings.{JsString}
use build_a_computer.Base.Json.{Json, null}
use build_a_computer.Access.Base64.{◌>>=◌, sextet, sextets, drop_padding, is_space, bytes_of, atob}
use build_a_computer.Access.Token.{
  payload_segment, claim, get_role_from_token, get_user_id_from_token,
}

-- "-" and "_", the digits of base64url that base64 does not have.
abbrev pub is_url_digit : ℕ → Bool
is_url_digit c = c == 45 || c == 95

abbrev HasUrlDigit : JsString → Type 0
HasUrlDigit s = any is_url_digit s ≡ true

sextet-url : (c : ℕ) → is_url_digit c ≡ true → sextet c ≡ none
unfolding sextet
sextet-url c h = ground arith

sextets-url : (s : JsString) → HasUrlDigit s → sextets s ≡ none
unfolding sextets
sextets-url [] h = cc
sextets-url (c ∷ s) h = ground (arith, sextet-url c, sextets-url s)

drop_padding-url : (s : JsString) → HasUrlDigit s → HasUrlDigit (drop_padding s)
unfolding drop_padding
drop_padding-url [] h = h
drop_padding-url (c ∷ []) h = ground arith
drop_padding-url (c ∷ d ∷ []) h = ground arith
drop_padding-url (c ∷ d ∷ e ∷ s) h = ground (arith, drop_padding-url (d ∷ e ∷ s))

filter-url : (s : JsString) → HasUrlDigit s → HasUrlDigit (filter (λ c. not (is_space c)) s)
unfolding is_space
filter-url [] h = h
filter-url (c ∷ s) h = ground (arith, filter-url s)

padded-url :
    (b : Bool) (t : JsString) → HasUrlDigit t → HasUrlDigit (if b then drop_padding t else t)
padded-url true t h = drop_padding-url t h
padded-url false t h = h

decode-url :
    (b : Bool) (u : JsString)
    → HasUrlDigit u
    → (if b then none else (sextets u >>= λ vs. some (bytes_of vs))) ≡ none
decode-url true u h = refl
decode-url false u h = rw (sextets-url u h)

atob-url : (s : JsString) → HasUrlDigit s → atob s ≡ none
unfolding atob
atob-url s h =
    let t = filter (λ c. not (is_space c)) s in
    let long = length t % 4 == 0 in
    let u = if long then drop_padding t else t in
    decode-url (length u % 4 == 1) u (padded-url long t (filter-url s h))

-- A token whose payload holds "-" or "_" has neither a role nor a user, whatever it says.
pub url_payload_unread :
    {N : Type 0} (json_parse : JsString → Option (Json N)) (token : JsString)
    → any is_url_digit (payload_segment token) ≡ true
    → (get_role_from_token json_parse token ≡ null)
      × (get_user_id_from_token json_parse token ≡ null)
unfolding get_role_from_token get_user_id_from_token claim
url_payload_unread json_parse token h = rw (atob-url (payload_segment token) h) (refl, refl)
