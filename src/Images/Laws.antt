-- ===== src/Images/Laws.antt =====
-- The bytes of an image and its data URL.
use build_a_computer.Base.{
  ℕ, zero, suc, ◌%◌, ◌^◌, ◌≤◌, ◌≡◌, refl, sym, ap, ◌∙◌, false, some, List, [], ◌∷◌, ◌++◌, map,
  arith, take, drop, length, take-append-drop, any, ltb, All,
}
use build_a_computer.Base.Strings.{JsString, codes}
use build_a_computer.Access.Base64.{btoa, encode, atob}
use build_a_computer.Access.Base64.Laws.{IsByte, atob-encode}
use build_a_computer.Images.{url, from_char_code, chunk_size, chunks, as_url, bytes_to_data_url}

length-drop : (n : ℕ) (bs : List ℕ) → length (drop n bs) ≤ length bs
length-drop zero bs = omega arith
length-drop (suc n) [] = omega arith
length-drop (suc n) (b ∷ bs) = omega (arith, length-drop n bs)

map-append : (f : ℕ → ℕ) (xs ys : List ℕ) → map f (xs ++ ys) ≡ map f xs ++ map f ys
map-append f [] ys = refl
map-append f (x ∷ xs) ys = ap (λ u. f x ∷ u) (map-append f xs ys)

-- The chunks together are the bytes, once there is fuel for each of them.
chunks-eq : (fuel : ℕ) (bs : List ℕ) → length bs ≤ fuel → chunks fuel bs ≡ from_char_code bs
unfolding chunks
chunks-eq zero [] h = refl
chunks-eq zero (b ∷ bs) h = absurd (omega (arith, h))
chunks-eq (suc n) [] h = refl
chunks-eq (suc n) (b ∷ bs) h =
    ap (λ u. from_char_code (take chunk_size (b ∷ bs)) ++ u)
      (chunks-eq n (drop chunk_size (b ∷ bs)) (omega (arith, h, length-drop 32767 bs)))
    ∙ sym (map-append (λ b. b % 2 ^ 16) (take chunk_size (b ∷ bs)) (drop chunk_size (b ∷ bs)))
    ∙ ap from_char_code (take-append-drop chunk_size (b ∷ bs))

from_char_code-eq : (bs : List ℕ) → All IsByte bs → from_char_code bs ≡ bs
from_char_code-eq [] _ = refl
from_char_code-eq (b ∷ bs) (h, hs) =
    let e : b % 2 ^ 16 ≡ b = omega arith in rw (e, from_char_code-eq bs hs) refl

none_large : (bs : List ℕ) → All IsByte bs → any (λ c. ltb 255 c) bs ≡ false
none_large [] _ = refl
none_large (b ∷ bs) (h, hs) = ground (arith, none_large bs hs)

btoa-eq : (bs : List ℕ) → All IsByte bs → btoa bs ≡ some (encode bs)
unfolding btoa
btoa-eq bs h = rw (none_large bs h) refl

-- An image with bytes gets a data URL of its type, whose text `atob` reads back as those bytes, however
-- many chunks they take.
pub bytes_to_data_url_lem :
    (b : ℕ) (bytes : List ℕ) (mime : JsString)
    → All IsByte (b ∷ bytes)
    → (text : JsString) × (bytes_to_data_url (some (b ∷ bytes)) mime
        ≡ url (codes "data:" ++ (mime ++ (codes ";base64," ++ text))))
      × (atob text ≡ some (b ∷ bytes))
unfolding bytes_to_data_url
bytes_to_data_url_lem b bytes mime h =
    let all = b ∷ bytes in
    let binary : chunks (length all) all ≡ all =
      chunks-eq (length all) all (omega arith) ∙ from_char_code-eq all h in
    let done : btoa (chunks (length all) all) ≡ some (encode all) =
      ap btoa binary ∙ btoa-eq all h in
    (encode all, ap (as_url mime) done, atob-encode all h)
