-- ===== src/Images.antt =====
-- The image of a game as a data URL: frontend/src/features/games/utils/imageBytes.ts.
pub mod Laws
use build_a_computer.Base.{
  ℕ, zero, suc, ◌%◌, ◌^◌, Option, none, some, List, [], ◌∷◌, ◌++◌, map, take, drop, length,
}
use build_a_computer.Base.Strings.{JsString, codes}
use build_a_computer.Access.Base64.{btoa}

-- `undefined`, a URL, or the exception of `btoa`.
pub data DataUrl : Type 0 where
  absent : DataUrl
  url : JsString → DataUrl
  thrown : DataUrl

-- `String.fromCharCode(...bytes)`.
abbrev pub from_char_code : List ℕ → JsString
from_char_code bytes = map (λ b. b % 2 ^ 16) bytes

abbrev pub chunk_size : ℕ
chunk_size = 32768

-- The loop over the chunks; the fuel is the number of bytes, of which each turn takes one at least.
unfoldable pub chunks : ℕ → List ℕ → JsString
chunks zero bytes = []
chunks (suc fuel) [] = []
chunks (suc fuel) (b ∷ bytes) =
    from_char_code (take chunk_size (b ∷ bytes)) ++ chunks fuel (drop chunk_size (b ∷ bytes))

abbrev pub as_url : JsString → Option JsString → DataUrl
as_url mime none = thrown
as_url mime (some text) = url (codes "data:" ++ (mime ++ (codes ";base64," ++ text)))

unfoldable pub bytes_to_data_url : Option (List ℕ) → JsString → DataUrl
unfolding chunks
bytes_to_data_url none mime = absent
bytes_to_data_url (some []) mime = absent
bytes_to_data_url (some (b ∷ bytes)) mime =
    as_url mime (btoa (chunks (length (b ∷ bytes)) (b ∷ bytes)))
