-- ===== src/Scenes/Disposal/Distinct.antt =====
-- Lists without repetition, and their making by insertion.
use build_a_computer.Base.{
  ℕ, ◌≡◌, refl, sym, ap, ◌∙◌, ◌⊎◌, inl, inr, ◌↔◌, true, List, [], ◌∷◌, ◌++◌, any, map, ◌==◌, In,
  In-append, Bool-cases, arith,
}
use build_a_computer.Scenes.Disposal.{Resource, insert}

-- No item stands in the list twice.
abbrev pub IsDistinct : {A : Type 0} → List A → Type 0
IsDistinct [] = Unit
IsDistinct (x ∷ xs) = (¬ In x xs) × IsDistinct xs

pub any_equal_iff : (x : ℕ) (xs : List ℕ) → (any (λ y. y == x) xs ≡ true) ↔ In x xs
any_equal_iff x [] = (λ h. cc, λ h. absurd h)
any_equal_iff x (y ∷ xs) = ground (arith, any_equal_iff x xs)

pub In-insert : (y x : ℕ) (xs : List ℕ) → In y (insert x xs) ↔ ((y ≡ x) ⊎ In y xs)
unfolding insert
In-insert y x xs = elim (Bool-cases (any (λ z. z == x) xs)) [
  | inl e ↦
      rw e (λ h. inr h, λ h. elim h [ inl same ↦ rw same ((any_equal_iff x xs).0 e) | inr i ↦ i ])
  | inr e ↦ rw e (ground (arith, In-append y xs (x ∷ [])))
]

pub IsDistinct-snoc :
    (x : ℕ) (xs : List ℕ) → ¬ In x xs → IsDistinct xs → IsDistinct (xs ++ (x ∷ []))
IsDistinct-snoc x [] h d = (λ i. i, tt)
IsDistinct-snoc x (y ∷ xs) h (here, later) = (
  λ i. elim ((In-append y xs (x ∷ [])).0 i) [
    | inl there ↦ here there
    | inr (inl e) ↦ h (inl (sym e))
    | inr (inr none) ↦ absurd none
  ],
  IsDistinct-snoc x xs (λ i. h (inr i)) later,
)

pub insert-IsDistinct : (x : ℕ) (xs : List ℕ) → IsDistinct xs → IsDistinct (insert x xs)
unfolding insert
insert-IsDistinct x xs d = elim (Bool-cases (any (λ z. z == x) xs)) [
  | inl e ↦ rw e d
  | inr e ↦ rw e (IsDistinct-snoc x xs (λ i. cc ((any_equal_iff x xs).1 i, e)) d)
]

pub In-map :
    (f : ℕ → Resource) (x : Resource) (xs : List ℕ)
    → In x (map f xs) ↔ ((n : ℕ) × In n xs × (x ≡ f n))
In-map f x [] = (λ i. absurd i, λ h. h.1)
In-map f x (y ∷ xs) = (
  λ i. elim i [
    | inl e ↦ (y, inl refl, e)
    | inr later ↦ let (n, j, e) = (In-map f x xs).0 later in (n, inr j, e)
  ],
  λ h. elim h.1 [ inl e ↦ inl (h.2 ∙ ap f e) | inr j ↦ inr ((In-map f x xs).1 (h.0, j, h.2)) ],
)

pub In-map_same :
    (f : ℕ → Resource)
    → ((m n : ℕ) → f m ≡ f n → m ≡ n)
    → (x : ℕ) (xs : List ℕ) → In (f x) (map f xs) ↔ In x xs
In-map_same f injective x [] = (λ i. i, λ i. i)
In-map_same f injective x (y ∷ xs) = (
  λ i. elim i [
    | inl e ↦ inl (injective x y e)
    | inr later ↦ inr ((In-map_same f injective x xs).0 later)
  ],
  λ i. elim i [ inl e ↦ inl (ap f e) | inr later ↦ inr ((In-map_same f injective x xs).1 later) ],
)

pub absent :
    (f : ℕ → Resource) (x : Resource) (xs : List ℕ) → ((n : ℕ) → ¬ (x ≡ f n)) → ¬ In x (map f xs)
absent f x [] other i = i
absent f x (y ∷ xs) other (inl e) = other y e
absent f x (y ∷ xs) other (inr i) = absent f x xs other i

pub map-IsDistinct :
    (f : ℕ → Resource)
    → ((m n : ℕ) → f m ≡ f n → m ≡ n)
    → (xs : List ℕ) → IsDistinct xs
    → IsDistinct (map f xs)
map-IsDistinct f injective [] d = tt
map-IsDistinct f injective (x ∷ xs) (here, later) =
    (λ i. here ((In-map_same f injective x xs).0 i), map-IsDistinct f injective xs later)

pub append-IsDistinct :
    (xs ys : List Resource)
    → IsDistinct xs
    → IsDistinct ys
    → ((x : Resource) → In x xs → ¬ In x ys)
    → IsDistinct (xs ++ ys)
append-IsDistinct [] ys d e apart = e
append-IsDistinct (x ∷ xs) ys (here, later) e apart = (
  λ i. elim ((In-append x xs ys).0 i) [ inl j ↦ here j | inr j ↦ apart x (inl refl) j ],
  append-IsDistinct xs ys later e (λ y i. apart y (inr i)),
)
