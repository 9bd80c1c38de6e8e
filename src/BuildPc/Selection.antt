-- ===== src/BuildPc/Selection.antt =====
-- The list of the selected games.
use build_a_computer.Base.{
  sym, inl, inr, Bool, not, List, [], ◌∷◌, ◌++◌, In, In-append, In-filter_iff, any, any_iff, filter,
  Bool-cases,
}
use build_a_computer.Base.Strings.{JsString, str_eq, str_eq_refl}
use build_a_computer.BuildPc.{handle_toggle}

abbrev pub AllDistinct : List JsString → Type 0
AllDistinct [] = Unit
AllDistinct (x ∷ xs) = (¬ In x xs) × AllDistinct xs

filter-AllDistinct :
    (p : JsString → Bool) (xs : List JsString) → AllDistinct xs → AllDistinct (filter p xs)
filter-AllDistinct p [] h = tt
filter-AllDistinct p (x ∷ xs) (h, hs) = elim (Bool-cases (p x)) [
  | inl keep ↦ rw keep (λ i. h ((In-filter_iff p x xs).0 i).0, filter-AllDistinct p xs hs)
  | inr drop ↦ rw drop (filter-AllDistinct p xs hs)
]

snoc-AllDistinct :
    (v : JsString) (xs : List JsString) → ¬ In v xs → AllDistinct xs → AllDistinct (xs ++ v ∷ [])
snoc-AllDistinct v [] fresh h = (λ i. i, tt)
snoc-AllDistinct v (x ∷ xs) fresh (h, hs) = (
  λ i. elim ((In-append x xs (v ∷ [])).0 i) [
    | inl i ↦ h i
    | inr (inl e) ↦ fresh (inl (sym e))
    | inr (inr a) ↦ absurd a
  ],
  snoc-AllDistinct v xs (λ i. fresh (inr i)) hs,
)

pub handle_toggle-AllDistinct :
    (v : JsString) (xs : List JsString) → AllDistinct xs → AllDistinct (handle_toggle v xs)
unfolding handle_toggle
handle_toggle-AllDistinct v xs h = elim (Bool-cases (any (str_eq v) xs)) [
  | inl present ↦ rw present (filter-AllDistinct (λ x. not (str_eq x v)) xs h)
  | inr fresh ↦ rw fresh (
      snoc-AllDistinct v xs
        (λ i. let hit = (any_iff (str_eq v) xs).1 (v, i, str_eq_refl v) in cc (fresh, hit)) h)
]
