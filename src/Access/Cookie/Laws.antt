-- ===== src/Access/Cookie/Laws.antt =====
-- Reading a cookie back from the header that the browser prints.
use mathlib.Core.Option
use build_a_computer.Base.{
  ◌≡◌, refl, ap, ◌∙◌, Bool, false, none, some, List, [], ◌∷◌, ◌++◌, map, drop, find?, All,
  if◌then◌else◌, Bool-cases, inl, inr,
}
use build_a_computer.Base.Strings.{
  JsString, codes, str_eq, starts_with, split, join, Lacks, Lacks-append, split-join, split-append,
  join-split, split_of_Lacks, starts_with-key, lookup,
}
use build_a_computer.Access.Cookie.{get_cookie}

-- One cookie, as `document.cookie` prints it.
abbrev pub print_cookie : JsString × JsString → JsString
print_cookie (n, v) = n ++ (codes "=" ++ v)

-- `document.cookie` for a jar of cookies.
abbrev pub print_jar : List (JsString × JsString) → JsString
print_jar jar = join (codes "; ") (map print_cookie jar)

-- RFC 6265: no ";" in a name or a value, no "=" in a name.
abbrev pub IsCookie : JsString × JsString → Type 0
IsCookie (n, v) = Lacks 59 n × Lacks 59 v × Lacks 61 n

row-Lacks :
    (jar : List (JsString × JsString)) → All IsCookie jar → All (Lacks 59) (map print_cookie jar)
row-Lacks [] _ = tt
row-Lacks ((n, v) ∷ jar) ((hn, hv, _), hs) =
    (Lacks-append 59 n (codes "=" ++ v) hn (refl, hv), row-Lacks jar hs)

-- The part of a row behind its first "=".
value_of_row :
    (n v : JsString)
    → Lacks 61 n
    → join (codes "=") (drop 1 (split (codes "=") (n ++ (codes "=" ++ v)))) ≡ v
value_of_row n v h =
    ap (λ u. join (codes "=") (drop 1 u))
      (split-append 61 n v ∙ ap (λ u. u ++ split (codes "=") v) (split_of_Lacks 61 n h))
    ∙ join-split 61 [] v

abbrev read_row : JsString → JsString
read_row row = join (codes "=") (drop 1 (split (codes "=") row))

find-row :
    (k : JsString) (jar : List (JsString × JsString))
    → Lacks 61 k
    → All IsCookie jar
    → Option.map read_row (find? (starts_with (k ++ codes "=")) (map print_cookie jar))
      ≡ lookup k jar
unfolding lookup
find-row k [] h _ = refl
find-row k ((n, v) ∷ jar) h ((_, _, hn), hs) = elim (Bool-cases (str_eq k n)) [
  | inl same ↦ rw (starts_with-key 61 k n v h hn, same) (ap some (value_of_row n v hn))
  | inr other ↦ rw (starts_with-key 61 k n v h hn, other) (find-row k jar h hs)
]

starts_with-nil : (k : JsString) → starts_with (k ++ codes "=") [] ≡ false
unfolding starts_with
starts_with-nil [] = refl
starts_with-nil (c ∷ k) = refl

abbrev no_row : JsString
no_row = []

if-false : {b : Bool} → b ≡ false → (if b then some no_row else none) ≡ none
if-false e = rw e

-- `getCookie` gives the value of the first cookie of that name, and `null` where there is none,
-- where the name that is asked for lacks "=", and in the jar no name or value holds ";" and no
-- name "=".
pub get_cookie-print_jar :
    (k : JsString) (jar : List (JsString × JsString))
    → Lacks 61 k
    → All IsCookie jar
    → get_cookie k (print_jar jar) ≡ lookup k jar
unfolding get_cookie lookup
get_cookie-print_jar k [] h _ = ap (Option.map read_row) (if-false (starts_with-nil k))
get_cookie-print_jar k (r ∷ jar) h hs =
    ap (λ u. Option.map read_row (find? (starts_with (k ++ codes "=")) u))
      (split-join 59 (32 ∷ []) (print_cookie r) (map print_cookie jar) (row-Lacks (r ∷ jar) hs))
    ∙ find-row k (r ∷ jar) h hs
