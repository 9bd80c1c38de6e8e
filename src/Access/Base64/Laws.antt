-- ===== src/Access/Base64/Laws.antt =====
-- `atob` after `btoa`.
use build_a_computer.Base.{
  ℕ, ◌+◌, ◌*◌, ◌/◌, ◌%◌, ◌<◌, ◌≡◌, refl, ap, true, false, not, some, List, [], ◌∷◌, arith, ◌==◌,
  length, map, All, filter-eq_self,
}
use build_a_computer.Access.Base64.{
  sextet, digit, sextets, is_space, drop_padding, bytes_of, atob, encode,
}

abbrev pub IsByte : ℕ → Type 0
IsByte b = b < 256

sextet-digit : (v : ℕ) → v < 64 → sextet (digit v) ≡ some v
unfolding sextet digit
sextet-digit v h = ground arith

digit-plain : (v : ℕ) → v < 64 → ((digit v == 61) ≡ false) × (not (is_space (digit v)) ≡ true)
unfolding digit is_space
digit-plain v h = (ground arith, ground arith)

-- The groups of six bits.
abbrev vals : List ℕ → List ℕ
vals (x ∷ y ∷ z ∷ bs) = x / 4 ∷ (x % 4 * 16 + y / 16) ∷ (y % 16 * 4 + z / 64) ∷ z % 64 ∷ vals bs
vals (x ∷ y ∷ []) = x / 4 ∷ (x % 4 * 16 + y / 16) ∷ y % 16 * 4 ∷ []
vals (x ∷ []) = x / 4 ∷ x % 4 * 16 ∷ []
vals [] = []

abbrev Small : ℕ → Type 0
Small v = v < 64

Small-vals : (bs : List ℕ) → All IsByte bs → All Small (vals bs)
Small-vals (x ∷ y ∷ z ∷ bs) (hx, (hy, (hz, hs))) =
    (omega arith, (omega arith, (omega arith, (omega arith, Small-vals bs hs))))
Small-vals (x ∷ y ∷ []) (hx, (hy, _)) = (omega arith, (omega arith, (omega arith, tt)))
Small-vals (x ∷ []) (hx, _) = (omega arith, (omega arith, tt))
Small-vals [] _ = tt

sextets-map : (vs : List ℕ) → All Small vs → sextets (map digit vs) ≡ some vs
unfolding sextets
sextets-map [] _ = refl
sextets-map (v ∷ vs) (h, hs) = rw (sextet-digit v h, sextets-map vs hs) refl

bytes_of-vals : (bs : List ℕ) → All IsByte bs → bytes_of (vals bs) ≡ bs
unfolding bytes_of
bytes_of-vals (x ∷ y ∷ z ∷ bs) (hx, (hy, (hz, hs))) =
    let e₁ : x / 4 * 4 + (x % 4 * 16 + y / 16) / 16 ≡ x = omega arith in
    let e₂ : (x % 4 * 16 + y / 16) % 16 * 16 + (y % 16 * 4 + z / 64) / 4 ≡ y = omega arith in
    let e₃ : (y % 16 * 4 + z / 64) % 4 * 64 + z % 64 ≡ z = omega arith in
    rw (e₁, e₂, e₃, bytes_of-vals bs hs) refl
bytes_of-vals (x ∷ y ∷ []) (hx, (hy, _)) =
    let e₁ : x / 4 * 4 + (x % 4 * 16 + y / 16) / 16 ≡ x = omega arith in
    let e₂ : (x % 4 * 16 + y / 16) % 16 * 16 + y % 16 * 4 / 4 ≡ y = omega arith in rw (e₁, e₂) refl
bytes_of-vals (x ∷ []) (hx, _) =
    let e₁ : x / 4 * 4 + x % 4 * 16 / 16 ≡ x = omega arith in rw e₁ refl
bytes_of-vals [] _ = refl

no_single : (bs : List ℕ) → (length (map digit (vals bs)) % 4 == 1) ≡ false
no_single (x ∷ y ∷ z ∷ bs) = ground (arith, no_single bs)
no_single (x ∷ y ∷ []) = refl
no_single (x ∷ []) = refl
no_single [] = refl

whole : (bs : List ℕ) → (length (encode bs) % 4 == 0) ≡ true
unfolding encode
whole (x ∷ y ∷ z ∷ bs) = ground (arith, whole bs)
whole (x ∷ y ∷ []) = refl
whole (x ∷ []) = refl
whole [] = refl

abbrev NoSpace : ℕ → Type 0
NoSpace c = not (is_space c) ≡ true

NoSpace-encode : (bs : List ℕ) → All IsByte bs → All NoSpace (encode bs)
unfolding encode is_space
NoSpace-encode (x ∷ y ∷ z ∷ bs) (hx, (hy, (hz, hs))) = (
  (digit-plain (x / 4) (omega arith)).1,
  (
    (digit-plain (x % 4 * 16 + y / 16) (omega arith)).1,
    (
      (digit-plain (y % 16 * 4 + z / 64) (omega arith)).1,
      ((digit-plain (z % 64) (omega arith)).1, NoSpace-encode bs hs),
    ),
  ),
)
NoSpace-encode (x ∷ y ∷ []) (hx, (hy, _)) = (
  (digit-plain (x / 4) (omega arith)).1,
  (
    (digit-plain (x % 4 * 16 + y / 16) (omega arith)).1,
    ((digit-plain (y % 16 * 4) (omega arith)).1, (refl, tt)),
  ),
)
NoSpace-encode (x ∷ []) (hx, _) = (
  (digit-plain (x / 4) (omega arith)).1,
  ((digit-plain (x % 4 * 16) (omega arith)).1, (refl, (refl, tt))),
)
NoSpace-encode [] _ = tt

unpad-four :
    (a b c d : ℕ) (bs : List ℕ)
    → (d == 61) ≡ false
    → drop_padding (encode bs) ≡ map digit (vals bs)
    → drop_padding (a ∷ b ∷ c ∷ d ∷ encode bs) ≡ a ∷ b ∷ c ∷ d ∷ map digit (vals bs)
unfolding drop_padding encode
unpad-four a b c d [] h e = rw h refl
unpad-four a b c d (x ∷ []) h e = ap (λ u. a ∷ b ∷ c ∷ d ∷ u) e
unpad-four a b c d (x ∷ y ∷ []) h e = ap (λ u. a ∷ b ∷ c ∷ d ∷ u) e
unpad-four a b c d (x ∷ y ∷ z ∷ bs) h e = ap (λ u. a ∷ b ∷ c ∷ d ∷ u) e

unpad : (bs : List ℕ) → All IsByte bs → drop_padding (encode bs) ≡ map digit (vals bs)
unfolding drop_padding encode
unpad (x ∷ y ∷ z ∷ bs) (hx, (hy, (hz, hs))) =
    unpad-four (digit (x / 4)) (digit (x % 4 * 16 + y / 16)) (digit (y % 16 * 4 + z / 64))
      (digit (z % 64)) bs (digit-plain (z % 64) (omega arith)).0 (unpad bs hs)
unpad (x ∷ y ∷ []) (hx, (hy, _)) = rw ((digit-plain (y % 16 * 4) (omega arith)).0) refl
unpad (x ∷ []) _ = refl
unpad [] _ = refl

pub atob-encode : (bs : List ℕ) → All IsByte bs → atob (encode bs) ≡ some bs
unfolding atob
atob-encode bs h =
    rw
      (
        filter-eq_self (λ c. not (is_space c)) (encode bs) (NoSpace-encode bs h),
        whole bs,
        unpad bs h,
        no_single bs,
        sextets-map (vals bs) (Small-vals bs h),
        bytes_of-vals bs h,
      )
      refl
