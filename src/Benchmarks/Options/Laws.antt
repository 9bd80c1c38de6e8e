-- ===== src/Benchmarks/Options/Laws.antt =====
-- The choices of the panel, against the values that occur.
use mathlib.Core.Path.{subst}
use mathlib.Core.Option.{some-injective}
use build_a_computer.Base.{
  ◌≡◌, refl, sym, ap, ◌∙◌, ◌≢◌, ◌↔◌, ◌⊎◌, inl, inr, Bool, true, false, Option, none, some, List, [],
  ◌∷◌, ◌++◌, arith, map, any, or_else, In, In-append, Bool-cases,
}
use build_a_computer.Base.Strings.{JsString, str_eq, str_eq_iff}
use build_a_computer.Base.Number.{JsNumber}
use build_a_computer.Benchmarks.{BenchmarkResponseDto, GameResponseDto}
use build_a_computer.Benchmarks.Filters.{Facet}
use build_a_computer.Benchmarks.Filters.Laws.{value_of, any-str_eq}
use build_a_computer.Benchmarks.Listing.{game_name_by_id}
use build_a_computer.Benchmarks.Options.{unique_from, truthy, FilterOptions, derive_filter_options}

-- The two cases of one round of `unique_from`.
module _ (v x : JsString) (seen xs us : List JsString) where
  old_there :
      In x seen → (In v us ↔ (In v xs × (¬ In v seen))) → In v us ↔ (In v (x ∷ xs) × (¬ In v seen))
  old_there i ih = (λ h. (inr (ih.0 h).0, (ih.0 h).1), λ h. ih.1 (still h.0 h.1, h.1))
    where
      still : In v (x ∷ xs) → (¬ In v seen) → In v xs
      still (inl e) n = absurd (n (subst (λ u. In u seen) (sym e) i))
      still (inr j) n = j

  seen_iff : In v (seen ++ x ∷ []) ↔ (In v seen ⊎ (v ≡ x))
  seen_iff = ground (arith, In-append v seen (x ∷ []))

  new_there :
      (¬ In x seen)
      → (In v us ↔ (In v xs × (¬ In v (seen ++ x ∷ []))))
      → In v (x ∷ us) ↔ (In v (x ∷ xs) × (¬ In v seen))
  new_there n ih = (out, λ h. back h.0 h.1)
    where
      out : In v (x ∷ us) → In v (x ∷ xs) × (¬ In v seen)
      out (inl e) = (inl e, λ i. n (subst (λ u. In u seen) e i))
      out (inr i) = (inr (ih.0 i).0, λ j. (ih.0 i).1 (seen_iff.1 (inl j)))

      back : In v (x ∷ xs) → (¬ In v seen) → In v (x ∷ us)
      back i m = elim (Bool-cases (str_eq v x)) [
        | inl e ↦ inl ((str_eq_iff v x).0 e)
        | inr e ↦
            let other : v ≢ x = λ p. cc (e, (str_eq_iff v x).1 p) in
            inr (ih.1 (later i other, λ j. neither other m (seen_iff.0 j)))
      ]
        where
          later : In v (x ∷ xs) → v ≢ x → In v xs
          later (inl e) o = absurd (o e)
          later (inr j) o = j

          neither : v ≢ x → (¬ In v seen) → (In v seen ⊎ (v ≡ x)) → ⊥
          neither o m (inl j) = m j
          neither o m (inr e) = o e

not-In : (x : JsString) (seen : List JsString) → any (str_eq x) seen ≡ false → ¬ In x seen
not-In x seen h i = cc (h, (any-str_eq x seen).1 i)

unique_from_iff :
    (v : JsString) (seen xs : List JsString)
    → In v (unique_from str_eq seen xs) ↔ (In v xs × (¬ In v seen))
unfolding unique_from
unique_from_iff v seen [] = (λ h. absurd h, λ h. absurd h.0)
unique_from_iff v seen (x ∷ xs) = elim (Bool-cases (any (str_eq x) seen)) [
  | inl old ↦ rw old (
      old_there v x seen xs (unique_from str_eq seen xs) ((any-str_eq x seen).0 old)
        (unique_from_iff v seen xs))
  | inr new ↦ rw new (
      new_there v x seen xs (unique_from str_eq (seen ++ x ∷ []) xs) (not-In x seen new)
        (unique_from_iff v (seen ++ x ∷ []) xs))
]

-- No value stands in the list twice.
abbrev pub AllDistinct : List JsString → Type 0
AllDistinct [] = Unit
AllDistinct (x ∷ xs) = (¬ In x xs) × AllDistinct xs

unique_from-AllDistinct : (seen xs : List JsString) → AllDistinct (unique_from str_eq seen xs)
unfolding unique_from
unique_from-AllDistinct seen [] = tt
unique_from-AllDistinct seen (x ∷ xs) = elim (Bool-cases (any (str_eq x) seen)) [
  | inl old ↦ rw old (unique_from-AllDistinct seen xs)
  | inr new ↦
      let now = seen ++ x ∷ [] in
      let fresh : ¬ In x (unique_from str_eq now xs) =
        λ i. ((unique_from_iff x now xs).0 i).1 ((In-append x seen (x ∷ [])).1 (inr (inl refl))) in
      rw new (fresh, unique_from-AllDistinct now xs)
]

In-truthy :
    (v : JsString) (os : List (Option JsString)) → In v (truthy os) ↔ (In (some v) os × (v ≢ []))
unfolding truthy
In-truthy v [] = ground arith
In-truthy v (none ∷ os) = ground (arith, In-truthy v os)
In-truthy v (some [] ∷ os) = ground (arith, In-truthy v os)
In-truthy v (some (c ∷ s) ∷ os) = ground (arith, In-truthy v os)

-- `x` is the image of an item.
pub In-map_iff :
    {A B : Type 0} (f : A → B) (y : B) (xs : List A)
    → In y (map f xs) ↔ ((x : A) × In x xs × (f x ≡ y))
In-map_iff f y [] = (λ h. absurd h, λ h. absurd h.1)
In-map_iff {A} f y (x ∷ xs) =
    (out (In-map_iff f y xs).0, λ h. back (In-map_iff f y xs).1 h.0 h.1 h.2)
  where
    out :
        (In y (map f xs) → (z : A) × In z xs × (f z ≡ y))
        → In y (map f (x ∷ xs))
        → (z : A) × In z (x ∷ xs) × (f z ≡ y)
    out ih (inl e) = (x, inl refl, sym e)
    out ih (inr i) = let (z, j, e) = ih i in (z, inr j, e)

    back :
        (((z : A) × In z xs × (f z ≡ y)) → In y (map f xs))
        → (z : A) → In z (x ∷ xs)
        → f z ≡ y
        → In y (map f (x ∷ xs))
    back ih z (inl e) h = inl (sym h ∙ ap f e)
    back ih z (inr i) h = inr (ih (z, i, h))

-- The values of a facet that the panel has a box for; a game's is its id.
abbrev pub offered : {N : Type 0} → FilterOptions N → Facet → List JsString
offered o Facet.gpu_vendors = o.gpu_vendors
offered o Facet.gpu_series = o.gpu_series
offered o Facet.gpu_memory_gen = o.gpu_memory_gen
offered o Facet.cpu_vendors = o.cpu_vendors
offered o Facet.cpu_family = o.cpu_family
offered o Facet.cpu_socket = o.cpu_socket
offered o Facet.ram_ddr = o.ram_ddr
offered o Facet.ram_brand = o.ram_brand
offered o Facet.games = map (λ g. g.0) o.games
offered o Facet.graphics_qualities = o.graphics_qualities

-- The facets of a part; their empty strings get no box.
abbrev pub is_hardware : Facet → Bool
is_hardware Facet.games = false
is_hardware Facet.graphics_qualities = false
is_hardware _ = true

abbrev pub IsNamed : Facet → JsString → Type 0
IsNamed k v = is_hardware k ≡ true → v ≢ []

module _ {A : Type 0} where
  hardware-box :
      (f : A → Option JsString) (v : JsString) (bs : List A)
      → In v (unique_from str_eq [] (truthy (map f bs)))
        ↔ ((b : A) × In b bs × (f b ≡ some v) × (true ≡ true → v ≢ []))
  hardware-box f v bs =
      let u = unique_from_iff v [] (truthy (map f bs)) in
      let t = In-truthy v (map f bs) in
      let m = In-map_iff f (some v) bs in
      (
        λ h. let (i, n) = t.0 (u.0 h).0 in let (b, j, e) = m.0 i in (b, j, e, λ _. n),
        λ (b, j, e, n). u.1 (t.1 (m.1 (b, j, e), n refl), λ bad. bad),
      )

  plain-box :
      (f : A → JsString) (v : JsString) (bs : List A)
      → In v (unique_from str_eq [] (map f bs))
        ↔ ((b : A) × In b bs × (some (f b) ≡ some v) × (false ≡ true → v ≢ []))
  plain-box f v bs =
      let u = unique_from_iff v [] (map f bs) in
      let m = In-map_iff f v bs in
      (
        λ h. let (b, j, e) = m.0 (u.0 h).0 in (b, j, ap some e, λ bad. cc bad),
        λ (b, j, e, n). u.1 (m.1 (b, j, some-injective _ _ e), λ bad. bad),
      )

map-ids :
    (f : JsString → JsString) (ids : List JsString)
    → map (λ (g : JsString × JsString). g.0) (map (λ id. (id, f id)) ids) ≡ ids
map-ids f [] = refl
map-ids f (i ∷ ids) = ap (λ u. i ∷ u) (map-ids f ids)

module _ {N : Type 0} ⦃d : JsNumber N⦄ (bs : List (BenchmarkResponseDto N))
    (games : List (GameResponseDto N)) where
  -- The panel offers just the values that occur in the fetched benchmarks, for the facets of a
  -- part without the empty string.
  pub In-offered :
      (k : Facet) (v : JsString)
      → In v (offered (derive_filter_options bs games) k)
        ↔ ((b : BenchmarkResponseDto N) × In b bs × (value_of b k ≡ some v) × IsNamed k v)
  unfolding derive_filter_options
  In-offered Facet.gpu_vendors v = hardware-box (λ b. value_of b Facet.gpu_vendors) v bs
  In-offered Facet.gpu_series v = hardware-box (λ b. value_of b Facet.gpu_series) v bs
  In-offered Facet.gpu_memory_gen v = hardware-box (λ b. value_of b Facet.gpu_memory_gen) v bs
  In-offered Facet.cpu_vendors v = hardware-box (λ b. value_of b Facet.cpu_vendors) v bs
  In-offered Facet.cpu_family v = hardware-box (λ b. value_of b Facet.cpu_family) v bs
  In-offered Facet.cpu_socket v = hardware-box (λ b. value_of b Facet.cpu_socket) v bs
  In-offered Facet.ram_ddr v = hardware-box (λ b. value_of b Facet.ram_ddr) v bs
  In-offered Facet.ram_brand v = hardware-box (λ b. value_of b Facet.ram_brand) v bs
  In-offered Facet.games v =
      rw (map-ids (λ id. or_else (game_name_by_id games id) id) ids)
        (plain-box (λ b. b.game_id) v bs)
    where
      ids : List JsString
      ids = unique_from str_eq [] (map (λ b. b.game_id) bs)
  In-offered Facet.graphics_qualities v = plain-box (λ b. b.graphics_quality) v bs

  -- The panel offers no value of a facet twice.
  offered-AllDistinct : (k : Facet) → AllDistinct (offered (derive_filter_options bs games) k)
  unfolding derive_filter_options
  offered-AllDistinct Facet.games =
      rw
        (map-ids (λ id. or_else (game_name_by_id games id) id)
          (unique_from str_eq [] (map (λ b. b.game_id) bs)))
        (unique_from-AllDistinct [] (map (λ b. b.game_id) bs))
  offered-AllDistinct Facet.gpu_vendors =
      unique_from-AllDistinct [] (truthy (map (λ b. value_of b Facet.gpu_vendors) bs))
  offered-AllDistinct Facet.gpu_series =
      unique_from-AllDistinct [] (truthy (map (λ b. value_of b Facet.gpu_series) bs))
  offered-AllDistinct Facet.gpu_memory_gen =
      unique_from-AllDistinct [] (truthy (map (λ b. value_of b Facet.gpu_memory_gen) bs))
  offered-AllDistinct Facet.cpu_vendors =
      unique_from-AllDistinct [] (truthy (map (λ b. value_of b Facet.cpu_vendors) bs))
  offered-AllDistinct Facet.cpu_family =
      unique_from-AllDistinct [] (truthy (map (λ b. value_of b Facet.cpu_family) bs))
  offered-AllDistinct Facet.cpu_socket =
      unique_from-AllDistinct [] (truthy (map (λ b. value_of b Facet.cpu_socket) bs))
  offered-AllDistinct Facet.ram_ddr =
      unique_from-AllDistinct [] (truthy (map (λ b. value_of b Facet.ram_ddr) bs))
  offered-AllDistinct Facet.ram_brand =
      unique_from-AllDistinct [] (truthy (map (λ b. value_of b Facet.ram_brand) bs))
  offered-AllDistinct Facet.graphics_qualities =
      unique_from-AllDistinct [] (map (λ b. b.graphics_quality) bs)
