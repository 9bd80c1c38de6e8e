-- ===== src/Examples/Images.antt =====
-- The bytes of a small image.
use build_a_computer.Base.{◌≡◌, some, [], ◌∷◌, ◌++◌, arith}
use build_a_computer.Base.Strings.{JsString, codes}
use build_a_computer.Access.Base64.{atob}
use build_a_computer.Images.{url, bytes_to_data_url}
use build_a_computer.Images.Laws.{bytes_to_data_url_lem}

bytes_to_data_url_lem_example :
    (text : JsString) × (bytes_to_data_url (some (137 ∷ 80 ∷ 78 ∷ 71 ∷ [])) (codes "image/png")
      ≡ url (codes "data:" ++ (codes "image/png" ++ (codes ";base64," ++ text))))
    × (atob text ≡ some (137 ∷ 80 ∷ 78 ∷ 71 ∷ []))
bytes_to_data_url_lem_example =
    bytes_to_data_url_lem 137 (80 ∷ 78 ∷ 71 ∷ []) (codes "image/png")
      (omega arith, (omega arith, (omega arith, (omega arith, tt))))
