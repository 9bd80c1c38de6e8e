-- ===== src/Base/Strings.antt =====
-- JavaScript strings as lists of UTF-16 code units, and the methods of `String.prototype` that the
-- sources call: `===`, `startsWith`, `includes`, `split`, `join`, `toLowerCase`, `trim`.
use Prim.Native.Nat.{ℕ, zero, suc, ◌-◌}
use Prim.Native.Char.{code}
use Prim.Native.String.{String}
use mathlib.Core.Path.{◌≡◌, refl, ap, ◌∙◌}
use mathlib.Core.Logic.{◌↔◌, inl, inr}
use mathlib.Core.Bool.{Bool, true, false, ◌&&◌, ◌||◌}
use mathlib.Core.Option.{Option, none, some}
use mathlib.Core.List.{List, [], ◌∷◌, ◌++◌, append-nil, append_assoc}
use native.Mathlib.Omega.{arith}
use build_a_computer.Base.Tests.{◌==◌, ==_refl, if◌then◌else◌, Bool-cases}
use build_a_computer.Base.Lists.{length, drop, All}

abbrev pub JsString : Type 0
JsString = List ℕ

-- The code units of a literal in the source (ASCII).
abbrev pub codes : String → JsString
codes String.[] = []
codes (String.◌∷◌ c s) = code c ∷ codes s

-- `a === b`.
unfoldable pub str_eq : JsString → JsString → Bool
str_eq [] [] = true
str_eq (a ∷ s) (b ∷ t) = (a == b) && str_eq s t
str_eq _ _ = false

unfoldable pub starts_with : JsString → JsString → Bool
starts_with [] s = true
starts_with (p ∷ ps) [] = false
starts_with (p ∷ ps) (c ∷ s) = (p == c) && starts_with ps s

-- `s.includes(t)`.
unfoldable pub includes : JsString → JsString → Bool
unfolding starts_with
includes [] t = starts_with t []
includes (c ∷ s) t = starts_with t (c ∷ s) || includes s t

-- The first value under a key.
unfoldable pub lookup {ℓ} : {V : Type ℓ} → JsString → List (JsString × V) → Option V
unfolding str_eq
lookup k [] = none
lookup k ((n, v) ∷ jar) = if str_eq k n then some v else lookup k jar

abbrev pub push_head : ℕ → List JsString → List JsString
push_head c [] = (c ∷ []) ∷ []
push_head c (r ∷ rs) = (c ∷ r) ∷ rs

-- `s.split(sep)` for a separator that is not empty, with the code units of a separator that are
-- still to be passed over.
split_from : JsString → ℕ → JsString → List JsString
split_from sep k [] = [] ∷ []
split_from sep (suc k) (c ∷ s) = split_from sep k s
split_from sep zero (c ∷ s) =
    let hit = starts_with sep (c ∷ s) in
    let rest = split_from sep (if hit then length sep - 1 else 0) s in
    if hit then [] ∷ rest else push_head c rest

unfoldable pub split : JsString → JsString → List JsString
unfolding split_from starts_with
split sep s = split_from sep 0 s

-- `parts.join(sep)`.
unfoldable pub join : JsString → List JsString → JsString
join sep [] = []
join sep (r ∷ []) = r
join sep (r ∷ q ∷ rs) = r ++ (sep ++ join sep (q ∷ rs))

pub str_eq_iff : (s t : JsString) → (str_eq s t ≡ true) ↔ (s ≡ t)
unfolding str_eq
str_eq_iff [] [] = ground arith
str_eq_iff [] (b ∷ t) = ground arith
str_eq_iff (a ∷ s) [] = ground arith
str_eq_iff (a ∷ s) (b ∷ t) = ground (arith, str_eq_iff s t)

pub str_eq_refl : (s : JsString) → str_eq s s ≡ true
str_eq_refl s = (str_eq_iff s s).1 refl

pub starts_with-append : (p s : JsString) → starts_with p (p ++ s) ≡ true
unfolding starts_with
starts_with-append [] s = refl
starts_with-append (c ∷ p) s = rw (==_refl c, starts_with-append p s)

pub append-drop_of_starts_with :
    (p s : JsString) → starts_with p s ≡ true → p ++ drop (length p) s ≡ s
unfolding starts_with
append-drop_of_starts_with [] s h = refl
append-drop_of_starts_with (c ∷ p) [] h = cc
append-drop_of_starts_with (c ∷ p) (d ∷ s) h = ground (arith, append-drop_of_starts_with p s)

-- A code unit that a string does not hold.
abbrev pub Lacks : ℕ → JsString → Type 0
Lacks c = All (λ d. (d == c) ≡ false)

-- With a separator whose first code unit the row lacks, a row stays whole.
split_from-push :
    (c : ℕ) (cs s t r : JsString) (q : List JsString)
    → Lacks c s
    → split_from (c ∷ cs) 0 t ≡ r ∷ q
    → split_from (c ∷ cs) 0 (s ++ t) ≡ (s ++ r) ∷ q
unfolding split_from starts_with
split_from-push c cs [] t r q h e = e
split_from-push c cs (d ∷ s) t r q (h, hs) e = ground (arith, split_from-push c cs s t r q hs e)

split_from-skip : (sep cs t : JsString) → split_from sep (length cs) (cs ++ t) ≡ split_from sep 0 t
unfolding split_from
split_from-skip sep [] t = refl
split_from-skip sep (c ∷ cs) t = split_from-skip sep cs t

sub_suc_one : (n : ℕ) → suc n - 1 ≡ n
sub_suc_one n = omega arith

split_from-sep :
    (c : ℕ) (cs t : JsString) → split_from (c ∷ cs) 0 ((c ∷ cs) ++ t) ≡ [] ∷ split_from (c ∷ cs) 0 t
unfolding split_from
split_from-sep c cs t = rw (starts_with-append (c ∷ cs) t) (
    ap (λ k. [] ∷ split_from (c ∷ cs) k (cs ++ t)) (sub_suc_one (length cs))
    ∙ ap (λ (u : List JsString). [] ∷ u) (split_from-skip (c ∷ cs) cs t))

split_from_cons :
    (sep : JsString) (k : ℕ) (s : JsString)
    → (r : JsString) × (q : List JsString) × (split_from sep k s ≡ r ∷ q)
unfolding split_from
split_from_cons sep k [] = ([], [], refl)
split_from_cons sep (suc k) (c ∷ s) = split_from_cons sep k s
split_from_cons sep zero (c ∷ s) = elim (Bool-cases (starts_with sep (c ∷ s))) [
  | inl hit ↦ ([], split_from sep (length sep - 1) s, rw hit)
  | inr miss ↦ let (r, q, e) = split_from_cons sep 0 s in (c ∷ r, q, rw (miss, e))
]

-- Rows that lack the separator's first code unit are found again.
pub split-join :
    (c : ℕ) (cs r : JsString) (rs : List JsString)
    → All (Lacks c) (r ∷ rs)
    → split (c ∷ cs) (join (c ∷ cs) (r ∷ rs)) ≡ r ∷ rs
unfolding split join
split-join c cs r [] (h, _) =
    let whole : split_from (c ∷ cs) 0 (r ++ []) ≡ (r ++ []) ∷ [] =
      split_from-push c cs r [] [] [] h refl in
    rw append-nil at whole
split-join c cs r (q ∷ rs) (h, hs) =
    split_from-push c cs r ((c ∷ cs) ++ join (c ∷ cs) (q ∷ rs)) [] (q ∷ rs) h (
      split_from-sep c cs (join (c ∷ cs) (q ∷ rs))
      ∙ ap (λ (u : List JsString). [] ∷ u) (split-join c cs q rs hs))
    ∙ ap (λ u. u ∷ q ∷ rs) (append-nil r)

join_cons :
    (sep x r : JsString) (q rs : List JsString)
    → rs ≡ r ∷ q
    → join sep (x ∷ rs) ≡ x ++ (sep ++ join sep rs)
unfolding join
join_cons sep x r q rs e = rw e

join-push_head :
    (sep r : JsString) (c : ℕ) (q rs : List JsString)
    → rs ≡ r ∷ q
    → join sep (push_head c rs) ≡ c ∷ join sep rs
unfolding join
join-push_head sep r c [] rs e = rw e
join-push_head sep r c (_ ∷ _) rs e = rw e

join-split_from :
    (c : ℕ) (cs : JsString) (k : ℕ) (s : JsString)
    → join (c ∷ cs) (split_from (c ∷ cs) k s) ≡ drop k s
unfolding split_from join
join-split_from c cs zero [] = refl
join-split_from c cs (suc k) [] = refl
join-split_from c cs (suc k) (x ∷ s) = join-split_from c cs k s
join-split_from c cs zero (x ∷ s) = elim (Bool-cases (starts_with (c ∷ cs) (x ∷ s))) [
  | inl hit ↦
      let (r, q, e) = split_from_cons (c ∷ cs) (length cs) s in
      rw (hit, sub_suc_one)
        (join_cons (c ∷ cs) [] r q _ e
          ∙ ap (λ u. (c ∷ cs) ++ u) (join-split_from c cs (length cs) s)
          ∙ append-drop_of_starts_with (c ∷ cs) (x ∷ s) hit)
  | inr miss ↦
      let (r, q, e) = split_from_cons (c ∷ cs) 0 s in
      rw miss (join-push_head (c ∷ cs) r x q _ e ∙ ap (λ u. x ∷ u) (join-split_from c cs 0 s))
]

-- Splitting and joining again gives the string back.
pub join-split : (c : ℕ) (cs s : JsString) → join (c ∷ cs) (split (c ∷ cs) s) ≡ s
unfolding split
join-split c cs s = join-split_from c cs 0 s

pub split_cons : (sep s : JsString) → (r : JsString) × (q : List JsString) × (split sep s ≡ r ∷ q)
unfolding split
split_cons sep s = split_from_cons sep 0 s

push_head-append :
    (d : ℕ) (r : JsString) (q us vs : List JsString)
    → us ≡ r ∷ q
    → push_head d (us ++ vs) ≡ push_head d us ++ vs
push_head-append d r q us vs e = rw e

-- Splitting at one code unit distributes over a concatenation at that code unit.
split_from-append :
    (c : ℕ) (s t : JsString)
    → split_from (c ∷ []) 0 (s ++ (c ∷ t)) ≡ split_from (c ∷ []) 0 s ++ split_from (c ∷ []) 0 t
unfolding split_from starts_with
split_from-append c [] t = ground arith
split_from-append c (d ∷ s) t =
    let (r, q, e) = split_from_cons (c ∷ []) 0 s in
    ground (
      arith,
      split_from-append c s t,
      push_head-append d r q (split_from (c ∷ []) 0 s) (split_from (c ∷ []) 0 t) e,
    )

pub split-append :
    (c : ℕ) (s t : JsString) → split (c ∷ []) (s ++ (c ∷ t)) ≡ split (c ∷ []) s ++ split (c ∷ []) t
unfolding split
split-append c s t = split_from-append c s t

pub join-append :
    (sep x y : JsString) (xs ys : List JsString)
    → join sep ((x ∷ xs) ++ (y ∷ ys)) ≡ join sep (x ∷ xs) ++ (sep ++ join sep (y ∷ ys))
unfolding join
join-append sep x y [] ys = refl
join-append sep x y (z ∷ xs) ys = rw (join-append sep z y xs ys, append_assoc, append_assoc)

pub Lacks-append : (c : ℕ) (s t : JsString) → Lacks c s → Lacks c t → Lacks c (s ++ t)
Lacks-append c [] t _ k = k
Lacks-append c (d ∷ s) t (h, hs) k = (h, Lacks-append c s t hs k)

-- A string that lacks the separator is split into itself.
pub split_of_Lacks : (c : ℕ) (s : JsString) → Lacks c s → split (c ∷ []) s ≡ s ∷ []
unfolding split
split_of_Lacks c s h =
    let whole : split_from (c ∷ []) 0 (s ++ []) ≡ (s ++ []) ∷ [] =
      split_from-push c [] s [] [] [] h refl in
    rw append-nil at whole

-- Names up to the first "=", of which both are free, are compared whole.
pub starts_with-key :
    (c : ℕ) (k n v : JsString)
    → Lacks c k
    → Lacks c n
    → starts_with (k ++ (c ∷ [])) (n ++ (c ∷ v)) ≡ str_eq k n
unfolding starts_with str_eq
starts_with-key c [] [] v _ _ = ground (arith, ==_refl c)
starts_with-key c [] (d ∷ n) v _ h = ground arith
starts_with-key c (d ∷ k) [] v h _ = ground arith
starts_with-key c (d ∷ k) (e ∷ n) v (h, hs) (g, gs) = ground (arith, starts_with-key c k n v hs gs)
