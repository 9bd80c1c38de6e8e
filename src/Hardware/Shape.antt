-- ===== src/Hardware/Shape.antt =====
-- What the schema of a hardware form asks of each field.
use mathlib.Core.Path.{subst}
use build_a_computer.Base.{
  ◌≡◌, refl, sym, ap, ◌∙◌, ◌≢◌, inl, inr, Bool, true, false, ◌&&◌, List, [], ◌∷◌, arith,
  if◌then◌else◌, map, In, Bool-cases, any, every,
}
use build_a_computer.Base.Strings.{JsString, str_eq, str_eq_iff, lookup}
use build_a_computer.Base.Number.{JsNumber}
use build_a_computer.Hardware.{
  FieldConfig, Values, put, Check, check_of, shape_from, passes, accepts,
}
use build_a_computer.Hardware.Laws.{AreDistinct}

pub every-In :
    {A : Type 0} (p : A → Bool) (xs : List A) (x : A) → every p xs ≡ true → In x xs → p x ≡ true
every-In p [] x h i = absurd i
every-In p (y ∷ ys) x h (inl e) = ground arith
every-In p (y ∷ ys) x h (inr i) = ground (arith, every-In p ys x)

pub every_of_In :
    {A : Type 0} (p : A → Bool) (xs : List A) → ((x : A) → In x xs → p x ≡ true) → every p xs ≡ true
every_of_In p [] h = refl
every_of_In p (x ∷ xs) h = rw (h x (inl refl)) (every_of_In p xs (λ y i. h y (inr i)))

-- A decision of `AreDistinct`.
abbrev pub distinct : List FieldConfig → Bool
distinct [] = true
distinct (f ∷ fields) =
    (if any (λ g. str_eq f.name g.name) fields then false else true) && distinct fields

pub In-any :
    (n : JsString) (fields : List FieldConfig)
    → In n (map (λ g. g.name) fields)
    → any (λ (g : FieldConfig). str_eq n g.name) fields ≡ true
In-any n [] i = absurd i
In-any n (g ∷ fields) (inl e) = ground (arith, str_eq_iff n g.name)
In-any n (g ∷ fields) (inr i) = ground (arith, In-any n fields i)

pub any-In :
    (n : JsString) (fields : List FieldConfig)
    → any (λ (g : FieldConfig). str_eq n g.name) fields ≡ true
    → In n (map (λ g. g.name) fields)
any-In n [] h = cc h
any-In n (g ∷ fields) h = elim (Bool-cases (str_eq n g.name)) [
  | inl e ↦ inl ((str_eq_iff n g.name).0 e)
  | inr e ↦ inr (any-In n fields (rw e at h))
]

pub distinct-AreDistinct : (fields : List FieldConfig) → distinct fields ≡ true → AreDistinct fields
distinct-AreDistinct [] h = tt
distinct-AreDistinct (f ∷ fields) h = elim (Bool-cases (any (λ g. str_eq f.name g.name) fields)) [
  | inl e ↦ cc (rw e at h)
  | inr e ↦ (λ i. cc (e, In-any f.name fields i), distinct-AreDistinct fields (rw e at h))
]

-- The schema holds the check of each field.
In-put_self : {V : Type 0} (k : JsString) (v : V) (r : List (JsString × V)) → In (k, v) (put k v r)
unfolding put
In-put_self k v [] = inl refl
In-put_self k v ((j, w) ∷ r) = elim (Bool-cases (str_eq j k)) [
  | inl e ↦ rw e (inl refl)
  | inr e ↦ rw e (inr (In-put_self k v r))
]

In-put_ne :
    {V : Type 0} (k j : JsString) (v w : V) (r : List (JsString × V))
    → j ≢ k
    → In (j, w) r
    → In (j, w) (put k v r)
unfolding put
In-put_ne k j v w [] n i = absurd i
In-put_ne k j v w ((i, u) ∷ r) n (inl h) = elim (Bool-cases (str_eq i k)) [
  | inl e ↦ absurd (n (ap (λ q. q.0) h ∙ (str_eq_iff i k).0 e))
  | inr e ↦ rw e (inl h)
]
In-put_ne k j v w ((i, u) ∷ r) n (inr h) = elim (Bool-cases (str_eq i k)) [
  | inl e ↦ rw e (inr h)
  | inr e ↦ rw e (inr (In-put_ne k j v w r n h))
]

abbrev pub row : FieldConfig → JsString × Check
row f = (f.name, check_of f.kind f.required)

shape_keeps :
    (fields : List FieldConfig) (k : JsString) (c : Check) (shape : List (JsString × Check))
    → (¬ In k (map (λ g. g.name) fields))
    → In (k, c) shape
    → In (k, c) (shape_from fields shape)
unfolding shape_from
shape_keeps [] k c shape n i = i
shape_keeps (f ∷ fields) k c shape n i =
    shape_keeps fields k c (put f.name (check_of f.kind f.required) shape) (λ j. n (inr j))
      (In-put_ne f.name k (check_of f.kind f.required) c shape (λ e. n (inl e)) i)

pub shape_holds :
    (fields : List FieldConfig) (f : FieldConfig) (shape : List (JsString × Check))
    → AreDistinct fields
    → In f fields
    → In (row f) (shape_from fields shape)
unfolding shape_from
shape_holds [] f shape _ i = absurd i
shape_holds (g ∷ fields) f shape (n, ns) (inr i) =
    shape_holds fields f (put g.name (check_of g.kind g.required) shape) ns i
shape_holds (g ∷ fields) f shape (n, ns) (inl e) =
    subst (λ u. In (row u) (shape_from fields (put g.name (check_of g.kind g.required) shape)))
      (sym e)
      (shape_keeps fields g.name (check_of g.kind g.required)
        (put g.name (check_of g.kind g.required) shape) n
        (In-put_self g.name (check_of g.kind g.required) shape))

-- What the form holds for a field, where the schema accepts it.
pub passes_of_accepts :
    {N : Type 0} (d : JsNumber N) (fields : List FieldConfig) (values : Values) (f : FieldConfig)
    → AreDistinct fields
    → In f fields
    → accepts d fields values ≡ true
    → passes d (check_of f.kind f.required) (lookup f.name values) ≡ true
unfolding accepts
passes_of_accepts d fields values f n i h =
    every-In (λ (r : JsString × Check). passes d r.1 (lookup r.0 values)) (shape_from fields [])
      (row f) h (shape_holds fields f [] n i)
