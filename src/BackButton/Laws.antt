-- ===== src/BackButton/Laws.antt =====
-- When the button goes back.
use build_a_computer.Base.{
  ℕ, zero, suc, ◌+◌, ◌≤◌, ◌≡◌, ◌≢◌, refl, sym, ap, ◌∙◌, ◌↔◌, inl, inr, true, false, not, some, List,
  [], ◌∷◌, In, ltb, any, any_iff, if◌then◌else◌, Bool-cases, arith,
}
use build_a_computer.Base.Strings.{JsString, str_eq, str_eq_iff}
use build_a_computer.BackButton.{Tracker, loaded, track, tracked, back, push, handle_press}

abbrev at : ℕ → JsString → Tracker
at n p = record { navigation_count = n; last_seen_path = some p }

-- How often the path changes, from a first one.
abbrev pub changes : JsString → List JsString → ℕ
changes p [] = 0
changes p (q ∷ qs) = if str_eq q p then changes p qs else suc (changes q qs)

track_same : (n : ℕ) (p q : JsString) → str_eq q p ≡ true → track q (at n p) ≡ at n p
unfolding track
track_same n p q h = rw h refl

track_other : (n : ℕ) (p q : JsString) → str_eq q p ≡ false → track q (at n p) ≡ at (suc n) q
unfolding track
track_other n p q h = rw h refl

tracked_count :
    (n : ℕ) (p : JsString) (ps : List JsString)
    → (tracked ps (at n p)).navigation_count ≡ n + changes p ps
tracked_count n p [] = omega arith
tracked_count n p (q ∷ qs) = elim (Bool-cases (str_eq q p)) [
  | inl same ↦
      ap (λ t. (tracked qs t).navigation_count) (track_same n p q same)
      ∙ tracked_count n p qs
      ∙ rw same refl
  | inr other ↦
      ap (λ t. (tracked qs t).navigation_count) (track_other n p q other)
      ∙ tracked_count (suc n) q qs
      ∙ rw other (omega arith)
]

-- The path changes at some time exactly when some path is not the first one.
changes_iff :
    (p : JsString) (ps : List JsString)
    → (1 ≤ changes p ps) ↔ (any (λ q. not (str_eq q p)) ps ≡ true)
changes_iff p [] = (λ h. absurd (omega (arith, h)), λ h. cc h)
changes_iff p (q ∷ qs) = elim (Bool-cases (str_eq q p)) [
  | inl same ↦ rw same (changes_iff p qs)
  | inr other ↦ rw other (λ _. refl, λ _. omega arith)
]

count_iff :
    (fallback : JsString) (n : ℕ) → ((if ltb 0 n then back else push fallback) ≡ back) ↔ (1 ≤ n)
count_iff fallback zero = (λ h. cc h, λ h. absurd (omega (arith, h)))
count_iff fallback (suc n) =
    let more : ltb 0 (suc n) ≡ true = ground arith in rw more (λ _. omega arith, λ _. refl)

other_iff : (p q : JsString) → (not (str_eq q p) ≡ true) ↔ (q ≢ p)
other_iff p q = ground (arith, str_eq_iff q p)

fallback_iff :
    (fallback : JsString) (n : ℕ)
    → ((if ltb 0 n then back else push fallback) ≡ push fallback) ↔ (n ≡ 0)
fallback_iff fallback zero = (λ _. refl, λ _. refl)
fallback_iff fallback (suc n) =
    let more : ltb 0 (suc n) ≡ true = ground arith in
    rw more (λ h. cc h, λ h. absurd (omega (arith, h)))

module _ (p : JsString) where
  counted : (ps : List JsString) → (tracked (p ∷ ps) loaded).navigation_count ≡ changes p ps
  unfolding track
  counted ps = tracked_count 0 p ps ∙ omega arith

  changed_iff : (ps : List JsString) → (1 ≤ changes p ps) ↔ ((q : JsString) × In q ps × (q ≢ p))
  changed_iff ps =
      let (some_change, change) = changes_iff p ps in
      let (found, find) = any_iff (λ q. not (str_eq q p)) ps in
      (
        λ h. let (q, i, e) = found (some_change h) in (q, i, (other_iff p q).0 e),
        λ (q, i, n). change (find (q, i, (other_iff p q).1 n)),
      )

  unchanged_iff : (ps : List JsString) → (changes p ps ≡ 0) ↔ ((q : JsString) → In q ps → q ≡ p)
  unchanged_iff ps = (
    λ h q i. elim (Bool-cases (str_eq q p)) [
      | inl e ↦ (str_eq_iff q p).0 e
      | inr e ↦
          let other : q ≢ p = λ f. cc (e, (str_eq_iff q p).1 f) in
          let many = (changed_iff ps).1 (q, i, other) in absurd (omega (arith, h, many))
    ],
    λ h. elim (Bool-cases (ltb 0 (changes p ps))) [
      | inl e ↦ let (q, i, n) = (changed_iff ps).0 (ground (arith, e)) in absurd (n (h q i))
      | inr e ↦ ground (arith, e)
    ],
  )

-- The button goes back exactly when some path that the application has shown since it was loaded is not
-- the one that it was loaded at, wherever the visitor is by now; and it goes to its fallback exactly when
-- every path that was shown is that one.
pub handle_press_iff :
    (fallback p : JsString) (ps : List JsString)
    → ((handle_press fallback (tracked (p ∷ ps) loaded) ≡ back)
        ↔ ((q : JsString) × In q ps × (q ≢ p)))
      × ((handle_press fallback (tracked (p ∷ ps) loaded) ≡ push fallback)
          ↔ ((q : JsString) → In q ps → q ≡ p))
unfolding handle_press
handle_press_iff fallback p ps =
    let (to, from) = count_iff fallback (tracked (p ∷ ps) loaded).navigation_count in
    let (to_fallback, from_fallback) =
      fallback_iff fallback (tracked (p ∷ ps) loaded).navigation_count in
    (
      (
        λ h. (changed_iff p ps).0 (rw (counted p ps) at (to h)),
        λ h. from (rw (counted p ps) ((changed_iff p ps).1 h)),
      ),
      (
        λ h. (unchanged_iff p ps).0 (sym (counted p ps) ∙ to_fallback h),
        λ h. from_fallback (counted p ps ∙ (unchanged_iff p ps).1 h),
      ),
    )
