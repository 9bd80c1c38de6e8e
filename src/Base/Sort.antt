-- ===== src/Base/Sort.antt =====
-- `Array.prototype.sort` with a comparator: a stable sort, where `after x y` says that the comparator
-- is positive at (x, y). For a consistent comparator every stable sort has the same result.
use build_a_computer.Base.Tests.{if◌then◌else◌, Bool-cases}
use build_a_computer.Base.Lists.{All, filter, In}
use mathlib.Core.Path.{◌≡◌, refl, ◌∙◌}
use mathlib.Core.Logic.{inl, inr, ◌↔◌}
use mathlib.Core.Bool.{Bool, true, false}
use mathlib.Core.List.{List, [], ◌∷◌, Perm}
use mathlib.Core.List.Perm
use native.Mathlib.Omega.{arith}

module _ {ℓ} {A : Type ℓ} (after : A → A → Bool) where
  unfoldable pub insert : A → List A → List A
  insert x [] = x ∷ []
  insert x (y ∷ ys) = if after x y then y ∷ insert x ys else x ∷ y ∷ ys

  unfoldable pub sort : List A → List A
  unfolding insert
  sort [] = []
  sort (x ∷ xs) = insert x (sort xs)

  -- No item stands before one that it should follow.
  abbrev pub IsSorted : List A → Type ℓ
  IsSorted [] = Unit
  IsSorted (x ∷ xs) = All (λ y. after x y ≡ false) xs × IsSorted xs

  insert-perm : (x : A) (ys : List A) → Perm (insert x ys) (x ∷ ys)
  unfolding insert
  insert-perm x [] = Perm.refl (x ∷ [])
  insert-perm x (y ∷ ys) = elim (Bool-cases (after x y)) [
    | inl late ↦ rw late (Perm.trans (Perm.cons y (insert-perm x ys)) (Perm.swap x y ys))
    | inr early ↦ rw early (Perm.refl (x ∷ y ∷ ys))
  ]

  pub sort-perm : (xs : List A) → Perm (sort xs) xs
  unfolding sort
  sort-perm [] = Perm.refl []
  sort-perm (x ∷ xs) = Perm.trans (insert-perm x (sort xs)) (Perm.cons x (sort-perm xs))

  -- Items that the comparator does not tell apart keep their order.
  insert-stable :
      (p : A → Bool) (x : A) (ys : List A)
      → ((x y : A) → p x ≡ true → p y ≡ true → after x y ≡ false)
      → filter p (insert x ys) ≡ filter p (x ∷ ys)
  unfolding insert
  insert-stable p x [] tie = refl
  insert-stable p x (y ∷ ys) tie = ground (arith, tie x y, insert-stable p x ys tie)

  pub sort-stable :
      (p : A → Bool) (xs : List A)
      → ((x y : A) → p x ≡ true → p y ≡ true → after x y ≡ false)
      → filter p (sort xs) ≡ filter p xs
  unfolding sort
  sort-stable p [] tie = refl
  sort-stable p (x ∷ xs) tie = insert-stable p x (sort xs) tie ∙ rw (sort-stable p xs tie) refl

  All-insert {κ} : (P : A → Type κ) (x : A) (ys : List A) → P x → All P ys → All P (insert x ys)
  unfolding insert
  All-insert P x [] h k = (h, k)
  All-insert P x (y ∷ ys) h (k, ks) = ground (arith, All-insert P x ys h ks)

  pub All-sort {κ} : (P : A → Type κ) (xs : List A) → All P xs → All P (sort xs)
  unfolding sort
  All-sort P [] h = h
  All-sort P (x ∷ xs) (h, hs) = All-insert P x (sort xs) h (All-sort P xs hs)

  All-after {κ} :
      (Good : A → Type κ) (x y : A) (zs : List A)
      → ((z : A) → Good z → after y z ≡ false → after x z ≡ false)
      → All Good zs
      → All (λ z. after y z ≡ false) zs
      → All (λ z. after x z ≡ false) zs
  All-after Good x y [] step g h = h
  All-after Good x y (z ∷ zs) step (g, gs) (h, hs) = (step z g h, All-after Good x y zs step gs hs)

  -- What the comparator must satisfy on the items `Good` that are sorted.
  pub record IsConsistent {κ} (Good : A → Type κ) : Type (ℓ ⊔ κ) where
    pub flip : (x y : A) → Good x → Good y → after x y ≡ true → after y x ≡ false
    pub chain :
        (x y z : A)
        → Good x
        → Good y
        → Good z
        → after x y ≡ false
        → after y z ≡ false
        → after x z ≡ false

  module _ {κ} (Good : A → Type κ) (c : IsConsistent Good) where
    insert-IsSorted :
        (x : A) (ys : List A) → Good x → All Good ys → IsSorted ys → IsSorted (insert x ys)
    unfolding insert
    insert-IsSorted x [] g gs s = (tt, tt)
    insert-IsSorted x (y ∷ ys) g (gy, gs) (low, s) = elim (Bool-cases (after x y)) [
      | inl late ↦ rw late (
        All-insert (λ z. after y z ≡ false) x ys (c.flip x y g gy late) low,
        insert-IsSorted x ys g gs s,
      )
      | inr early ↦
          let above = λ (z : A) (gz : Good z). c.chain x y z g gy gz early in
          rw early ((early, All-after Good x y ys above gs low), (low, s))
    ]

    pub sort-IsSorted : (xs : List A) → All Good xs → IsSorted (sort xs)
    unfolding sort
    sort-IsSorted [] _ = tt
    sort-IsSorted (x ∷ xs) (g, gs) =
        insert-IsSorted x (sort xs) g (All-sort Good xs gs) (sort-IsSorted xs gs)

-- Sorting keeps the items.
module _ {A : Type 0} (after : A → A → Bool) where
  In-insert : (a x : A) (ys : List A) → In a (insert after x ys) ↔ In a (x ∷ ys)
  unfolding insert
  In-insert a x [] = ground arith
  In-insert a x (y ∷ ys) = ground (arith, In-insert a x ys)

  pub In-sort : (a : A) (xs : List A) → In a (sort after xs) ↔ In a xs
  unfolding sort
  In-sort a [] = ground arith
  In-sort a (x ∷ xs) = ground (arith, In-insert a x (sort after xs), In-sort a xs)
