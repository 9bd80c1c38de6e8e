-- ===== src/Panels/Laws.antt =====
-- A drag of a handle.
use mathlib.Core.Path.{subst}
use build_a_computer.Base.{
  ℕ, zero, suc, ◌+◌, ◌-◌, ◌≤◌, ◌≡◌, ◌≢◌, refl, sym, ap, ◌∙◌, Bool, true, false, Option, none, some,
  List, [], ◌∷◌, leb, get_elem?, if◌then◌else◌, arith,
}
use build_a_computer.Base.Strings.{JsString}
use build_a_computer.Panels.{
  ℤ, pos, negsuc, minus, ◌+ℤ◌, neg, leb_ℤ, min, max, Panels, Drag, start_resize, new_before,
  resize_at, on_move,
}

minus_le : (a b : ℕ) → b ≤ a → minus a b ≡ pos (a - b)
minus_le a b h = ground arith

rest_lem : (total b : ℕ) → b ≤ total → pos total +ℤ neg (pos b) ≡ pos (total - b)
unfolding ◌+ℤ◌ neg
rest_lem total zero h = ap pos (omega arith)
rest_lem total (suc b) h = minus_le total (suc b) h

-- A target is kept between 40 and 40 below the total.
abbrev clamp : ℕ → ℕ → ℕ
clamp total x =
    let y : ℕ = if leb (total - 40) x then total - 40 else x in if leb 40 y then y else 40

clamp_bounds : (total x : ℕ) → 80 ≤ total → (40 ≤ clamp total x) × (clamp total x + 40 ≤ total)
clamp_bounds total x h = ground arith

clamp_inside : (total x : ℕ) → 40 ≤ x → x + 40 ≤ total → clamp total x ≡ x
clamp_inside total x l u = ground arith

pos-if : (b : Bool) (x y : ℕ) → (if b then pos x else pos y) ≡ pos (if b then x else y)
pos-if true x y = refl
pos-if false x y = refl

min_pos : (a b : ℕ) → min (pos a) (pos b) ≡ pos (if leb a b then a else b)
unfolding min leb_ℤ
min_pos a b = pos-if (leb a b) a b

max_pos : (a b : ℕ) → max (pos a) (pos b) ≡ pos (if leb a b then b else a)
unfolding max leb_ℤ
max_pos a b = pos-if (leb a b) b a

pos_clamp :
    (total x : ℕ)
    → 40 ≤ total
    → max (pos 40) (min (pos total +ℤ neg (pos 40)) (pos x)) ≡ pos (clamp total x)
pos_clamp total x h =
    ap (λ y. max (pos 40) (min y (pos x))) (rest_lem total 40 h)
    ∙ ap (max (pos 40)) (min_pos (total - 40) x)
    ∙ max_pos 40 (if leb (total - 40) x then total - 40 else x)

negsuc_clamp :
    (total x : ℕ) → 40 ≤ total → max (pos 40) (min (pos total +ℤ neg (pos 40)) (negsuc x)) ≡ pos 40
unfolding max min leb_ℤ
negsuc_clamp total x h = ap (λ y. max (pos 40) (min y (negsuc x))) (rest_lem total 40 h)

-- The two sizes that a move gives.
abbrev pub Split : ℕ → ℤ → ℤ → Type 0
Split total before after =
    (b : ℕ) × (a : ℕ) × (before ≡ pos b) × (after ≡ pos a) × (b + a ≡ total) × (40 ≤ b) × (40 ≤ a)

Split-bounds :
    (total b : ℕ) → 40 ≤ b → b + 40 ≤ total → Split total (pos b) (pos total +ℤ neg (pos b))
Split-bounds total b l u =
    (b, total - b, refl, rest_lem total b (omega (arith, u)), omega (arith, u), l, omega (arith, u))

max-Split :
    (total : ℕ) (target : ℤ)
    → 80 ≤ total
    → let before = max (pos 40) (min (pos total +ℤ neg (pos 40)) target) in
      Split total before (pos total +ℤ neg before)
max-Split total (pos x) h =
    let (l, u) = clamp_bounds total x h in
    subst (λ y. Split total y (pos total +ℤ neg y)) (sym (pos_clamp total x (omega (arith, h))))
      (Split-bounds total (clamp total x) l u)
max-Split total (negsuc x) h =
    subst (λ y. Split total y (pos total +ℤ neg y)) (sym (negsuc_clamp total x (omega (arith, h))))
      (Split-bounds total 40 (omega arith) (omega (arith, h)))

resize_at_here :
    (i : ℕ) (size : ℤ) (panels : Panels) (p : JsString × ℤ)
    → get_elem? panels i ≡ some p
    → get_elem? (resize_at i size panels) i ≡ some (p.0, size)
unfolding resize_at
resize_at_here i size [] p e = cc e
resize_at_here zero size ((k, s) ∷ panels) p e =
    ap (λ o. elim o [ some q ↦ some (q.0, size) | none ↦ none ]) e
resize_at_here (suc i) size (q ∷ panels) p e = resize_at_here i size panels p e

resize_at_other :
    (i j : ℕ) (size : ℤ) (panels : Panels)
    → i ≢ j
    → get_elem? (resize_at i size panels) j ≡ get_elem? panels j
unfolding resize_at
resize_at_other i j size [] n = refl
resize_at_other zero zero size ((k, s) ∷ panels) n = absurd (n refl)
resize_at_other zero (suc j) size ((k, s) ∷ panels) n = refl
resize_at_other (suc i) zero size (q ∷ panels) n = refl
resize_at_other (suc i) (suc j) size (q ∷ panels) n =
    resize_at_other i j size panels (λ e. n (ap suc e))

new_before-Split :
    (d : Drag) (client : ℤ) (total : ℕ)
    → d.total ≡ pos total
    → 80 ≤ total
    → Split total (new_before d client) (d.total +ℤ neg (new_before d client))
unfolding new_before
new_before-Split d client total t h =
    rw t (max-Split total (d.start_before_size +ℤ (client +ℤ neg d.start_pos)) h)

-- What a move leaves, at the places i and i + 1 of the list.
abbrev pub Resized : ℕ → ℕ → JsString → JsString → Panels → Panels → Type 0
Resized i total k l panels result =
    (b : ℕ) × (a : ℕ) × (get_elem? result i ≡ some (k, pos b))
    × (get_elem? result (suc i) ≡ some (l, pos a))
    × (b + a ≡ total)
    × (40 ≤ b)
    × (40 ≤ a)
    × ((j : ℕ) → j ≢ i → j ≢ suc i → get_elem? result j ≡ get_elem? panels j)

on_move_lem :
    (d : Drag) (client : ℤ) (panels : Panels) (total : ℕ) (p q : JsString × ℤ)
    → d.total ≡ pos total
    → 80 ≤ total
    → get_elem? panels d.handle_index ≡ some p
    → get_elem? panels (suc d.handle_index) ≡ some q
    → Resized d.handle_index total p.0 q.0 panels (on_move d client panels)
unfolding on_move
on_move_lem d client panels total p q t h hp hq =
    let i = d.handle_index in
    let before = new_before d client in
    let after = d.total +ℤ neg before in
    let (b, a, eb, ea, sum, l, u) = new_before-Split d client total t h in
    (
      b,
      a,
      resize_at_other (suc i) i after (resize_at i before panels) (λ e. omega (arith, e))
          ∙ resize_at_here i before panels p hp
          ∙ ap (λ z. some (p.0, z)) eb,
      resize_at_here (suc i) after (resize_at i before panels) q
            (resize_at_other i (suc i) before panels (λ e. omega (arith, e)) ∙ hq)
          ∙ ap (λ z. some (q.0, z)) ea,
      sum,
      l,
      u,
      λ j n m.
          resize_at_other (suc i) j after (resize_at i before panels) (λ e. m (sym e))
          ∙ resize_at_other i j before panels (λ e. n (sym e)),
    )

-- The moves of one drag.
abbrev pub moves : Drag → List ℤ → Panels → Panels
moves d [] panels = panels
moves d (c ∷ cs) panels = moves d cs (on_move d c panels)

moves_lem :
    (d : Drag) (c : ℤ) (cs : List ℤ) (panels : Panels) (total : ℕ) (p q : JsString × ℤ)
    → d.total ≡ pos total
    → 80 ≤ total
    → get_elem? panels d.handle_index ≡ some p
    → get_elem? panels (suc d.handle_index) ≡ some q
    → Resized d.handle_index total p.0 q.0 panels (moves d (c ∷ cs) panels)
moves_lem d c [] panels total p q t h hp hq = on_move_lem d c panels total p q t h hp hq
moves_lem d c (c' ∷ cs) panels total p q t h hp hq =
    let (b, a, eb, ea, _, _, _, others) = on_move_lem d c panels total p q t h hp hq in
    let (b', a', eb', ea', sum, l, u, others') =
      moves_lem d c' cs (on_move d c panels) total (p.0, pos b) (q.0, pos a) t h eb ea in
    (b', a', eb', ea', sum, l, u, λ j n m. others' j n m ∙ others j n m)

started_lem :
    (i : ℕ) (start : ℤ) (panels : Panels) (p q : JsString × ℤ) (d : Drag)
    → start_resize i start panels ≡ some d
    → get_elem? panels i ≡ some p
    → get_elem? panels (suc i) ≡ some q
    → (d.handle_index ≡ i) × (d.total ≡ p.1 +ℤ q.1)
unfolding start_resize
started_lem i start panels p q d e hp hq =
    let e' : some (record {
      handle_index = i;
      start_pos = start;
      start_before_size = p.1;
      total = p.1 +ℤ q.1;
    })
        ≡ some d =
      rw (hp, hq) at e in
    (
      ap (λ (o : Option Drag). elim o [ some x ↦ x.handle_index | none ↦ 0 ]) (sym e'),
      ap (λ (o : Option Drag). elim o [ some x ↦ x.total | none ↦ pos 0 ]) (sym e'),
    )

-- Any moves of the pointer, wherever it goes, in a drag of the handle between two panels that have eighty
-- pixels together at least: the two panels stand at their places under their ids, each of them has forty
-- pixels at least, and together they have what they had at the start; no other panel is changed.
pub drag_lem :
    (i : ℕ) (start : ℤ) (panels : Panels) (k l : JsString) (m n : ℕ) (d : Drag) (c : ℤ)
    (cs : List ℤ)
    → get_elem? panels i ≡ some (k, pos m)
    → get_elem? panels (suc i) ≡ some (l, pos n)
    → 80 ≤ m + n
    → start_resize i start panels ≡ some d
    → Resized i (m + n) k l panels (moves d (c ∷ cs) panels)
unfolding ◌+ℤ◌
drag_lem i start panels k l m n d c cs hp hq h e =
    let (at, t) = started_lem i start panels (k, pos m) (l, pos n) d e hp hq in
    subst (λ x. Resized x (m + n) k l panels (moves d (c ∷ cs) panels)) at
      (moves_lem d c cs panels (m + n) (k, pos m) (l, pos n) t h (ap (get_elem? panels) at ∙ hp)
        (ap (λ x. get_elem? panels (suc x)) at ∙ hq))
