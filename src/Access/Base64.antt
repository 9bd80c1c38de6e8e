-- ===== src/Access/Base64.antt =====
-- `atob` and `btoa` of the browser, which utils/jwt.ts and features/games/utils/imageBytes.ts call:
-- the forgiving decoder and the encoder of the HTML standard.
pub mod Laws
use build_a_computer.Base.{
  ℕ, ◌+◌, ◌-◌, ◌*◌, ◌/◌, ◌%◌, Bool, not, ◌&&◌, ◌||◌, Option, none, some, List, [], ◌∷◌, ltb, leb,
  ◌==◌, if◌then◌else◌, length, filter, any,
}
use build_a_computer.Base.Strings.{JsString}

infixl 5 ◌>>=◌
abbrev pub ◌>>=◌ {ℓ κ} : {A : Type ℓ} {B : Type κ} → Option A → (A → Option B) → Option B
none >>= k = none
some a >>= k = k a

-- The value of a digit of base 64.
unfoldable pub sextet : ℕ → Option ℕ
sextet c =
    if leb 65 c && leb c 90
    then some (c - 65)
    else if leb 97 c && leb c 122
    then some (c - 71)
    else if leb 48 c && leb c 57
    then some (c + 4)
    else if c == 43
    then some 62
    else if c == 47
    then some 63
    else none

unfoldable pub digit : ℕ → ℕ
digit v =
    if ltb v 26
    then v + 65
    else if ltb v 52
    then v + 71
    else if ltb v 62
    then v - 4
    else if v == 62
    then 43
    else 47

unfoldable pub sextets : JsString → Option (List ℕ)
unfolding sextet
sextets [] = some []
sextets (c ∷ s) = do v ← sextet c; vs ← sextets s; some (v ∷ vs)

unfoldable pub is_space : ℕ → Bool
is_space c = c == 9 || c == 10 || c == 12 || c == 13 || c == 32

-- Without one or two "=" at the end.
unfoldable pub drop_padding : JsString → JsString
drop_padding [] = []
drop_padding (c ∷ []) = if c == 61 then [] else c ∷ []
drop_padding (c ∷ d ∷ []) = if d == 61 then (if c == 61 then [] else c ∷ []) else c ∷ d ∷ []
drop_padding (c ∷ d ∷ e ∷ s) = c ∷ drop_padding (d ∷ e ∷ s)

-- Four digits make three bytes; two or three left over make one or two.
unfoldable pub bytes_of : List ℕ → List ℕ
bytes_of (a ∷ b ∷ c ∷ d ∷ vs) =
    (a * 4 + b / 16) ∷ (b % 16 * 16 + c / 4) ∷ (c % 4 * 64 + d) ∷ bytes_of vs
bytes_of (a ∷ b ∷ c ∷ []) = (a * 4 + b / 16) ∷ (b % 16 * 16 + c / 4) ∷ []
bytes_of (a ∷ b ∷ []) = (a * 4 + b / 16) ∷ []
bytes_of _ = []

-- `none` is the InvalidCharacterError.
unfoldable pub atob : JsString → Option JsString
atob s =
    let t = filter (λ c. not (is_space c)) s in
    let u = if length t % 4 == 0 then drop_padding t else t in
    if length u % 4 == 1 then none else (do vs ← sextets u; some (bytes_of vs))

unfoldable pub encode : List ℕ → JsString
unfolding digit
encode (x ∷ y ∷ z ∷ bs) =
    digit (x / 4)
    ∷ digit (x % 4 * 16 + y / 16)
    ∷ digit (y % 16 * 4 + z / 64)
    ∷ digit (z % 64)
    ∷ encode bs
encode (x ∷ y ∷ []) = digit (x / 4) ∷ digit (x % 4 * 16 + y / 16) ∷ digit (y % 16 * 4) ∷ 61 ∷ []
encode (x ∷ []) = digit (x / 4) ∷ digit (x % 4 * 16) ∷ 61 ∷ 61 ∷ []
encode [] = []

-- `none` is the InvalidCharacterError for a code unit above 255.
unfoldable pub btoa : JsString → Option JsString
unfolding encode
btoa s = if any (λ c. ltb 255 c) s then none else some (encode s)
