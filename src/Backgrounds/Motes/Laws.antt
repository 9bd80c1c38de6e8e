-- ===== src/Backgrounds/Motes/Laws.antt =====
-- The sprites that the motes are drawn with.
use mathlib.Core.Path.{subst}
use build_a_computer.Base.{
  ℕ, zero, suc, ◌+◌, ◌≤◌, ◌<◌, ◌≡◌, refl, ap, ◌∙◌, inl, inr, Bool, true, false, Option, none, some,
  List, [], ◌∷◌, ◌++◌, find?, length, length-append, get_elem?, All, Bool-cases, arith,
}
use build_a_computer.Base.Real.{JsReal}
use build_a_computer.Canvas.{LayerSize}
use build_a_computer.Panels.{ℤ, pos, ◌+ℤ◌}
use build_a_computer.Backgrounds.Clamping.{clamp_lem}
use build_a_computer.Backgrounds.{FieldMath, turns}
use build_a_computer.Backgrounds.Motes.{
  ◌>>=◌, Hue, gold, silver, Theme, dark, light, Mote, Sprite, Sheets, MoteState, Paint, alpha,
  hue_sprites, build_sprite_sheet, sprite_index_for, make_mote, make_motes, mote_count, SpriteCache,
  found, get_sprite_sheets_for, setup, advance_mote, paint_mote, draw_motes, draw,
}

-- The index of one of the twelve sprites of a sheet.
abbrev pub IsIndex : ℤ → Type 0
IsIndex z = (i : ℕ) × (z ≡ pos i) × (i < 12)

-- Both sheets have their twelve sprites.
pub record IsWhole {N : Type 0} (s : Sheets N) : Type 0 where
  pub dark_whole : length s.dark_sprites ≡ 12
  pub light_whole : length s.light_sprites ≡ 12

pub record IsReady {N : Type 0} (s : MoteState N) : Type 0 where
  pub indexed : All (λ mote. IsIndex mote.sprite_index) s.motes
  pub whole : IsWhole s.sheets

get_elem?-within :
    {A : Type 0} (xs : List A) (i : ℕ) → i < length xs → (x : A) × (get_elem? xs i ≡ some x)
get_elem?-within [] i h = absurd (omega (arith, h))
get_elem?-within (x ∷ xs) zero h = (x, refl)
get_elem?-within (x ∷ xs) (suc i) h = get_elem?-within xs i (omega (arith, h))

abbrev pub AreWhole : {N : Type 0} → SpriteCache N → Type 0
AreWhole cache = All (λ e. IsWhole e.1) cache

snoc-All :
    {A : Type 0} (P : A → Type 0) (xs : List A) (x : A) → All P xs → P x → All P (xs ++ (x ∷ []))
snoc-All P [] x h p = (p, tt)
snoc-All P (y ∷ xs) x (h, hs) p = (h, snoc-All P xs x hs p)

find?-All :
    {A : Type 0} (P : A → Type 0) (p : A → Bool) (xs : List A)
    → All P xs
    → (x : A) → find? p xs ≡ some x
    → P x
find?-All P p [] h x e = cc e
find?-All P p (y ∷ xs) (h, hs) x e = elim (Bool-cases (p y)) [
  | inl f ↦ let g : some y ≡ some x = rw f at e in let same : y ≡ x = cc g in subst P same h
  | inr f ↦ find?-All P p xs hs x (rw f at e)
]

found-AreWhole :
    {N : Type 0} (o : Option (N × Sheets N)) (cache : SpriteCache N) (fresh : Sheets N) (dpr : N)
    → ((e : N × Sheets N) → o ≡ some e → IsWhole e.1)
    → IsWhole fresh
    → AreWhole cache
    → IsWhole (found o cache fresh dpr).0 × AreWhole (found o cache fresh dpr).1
found-AreWhole none cache fresh dpr h w ws =
    (w, snoc-All (λ e. IsWhole e.1) cache (dpr, fresh) ws w)
found-AreWhole (some e) cache fresh dpr h w ws = (h e refl, ws)

module _ {N : Type 0} (d : JsReal N) (m : FieldMath N) where
  -- `Math.round(t * (SIZE_BUCKETS - 1))`.
  abbrev rounded : N → ℤ
  rounded size =
      let t = d.div (d.sub size (d.dec 6 1)) (d.sub (d.dec 24 1) (d.dec 6 1)) in
      m.round (d.mul t (d.sub (d.dec 6 0) (d.dec 1 0)))

  sprite_index_for-IsIndex : (hue : Hue) (size : N) → IsIndex (sprite_index_for d m hue size)
  unfolding sprite_index_for ◌+ℤ◌
  sprite_index_for-IsIndex gold size =
      let (k, e, low, high) = clamp_lem 0 5 (rounded size) (omega arith) in
      (0 + k, ap (λ b. pos 0 +ℤ b) e, omega (arith, high))
  sprite_index_for-IsIndex silver size =
      let (k, e, low, high) = clamp_lem 0 5 (rounded size) (omega arith) in
      (6 + k, ap (λ b. pos 6 +ℤ b) e, omega (arith, high))

  length-hue_sprites :
      (has_context : Bool) (theme : Theme) (hue : Hue) (dpr : N) (i n : ℕ)
      → length (hue_sprites d m has_context theme hue dpr i n) ≡ n
  unfolding hue_sprites
  length-hue_sprites has_context theme hue dpr i zero = refl
  length-hue_sprites has_context theme hue dpr i (suc n) =
      ap suc (length-hue_sprites has_context theme hue dpr (suc i) n)

  length-build_sprite_sheet :
      (has_context : Bool) (theme : Theme) (dpr : N)
      → length (build_sprite_sheet d m has_context theme dpr) ≡ 12
  unfolding build_sprite_sheet
  length-build_sprite_sheet has_context theme dpr =
      length-append (hue_sprites d m has_context theme gold dpr 0 6)
        (hue_sprites d m has_context theme silver dpr 0 6)
      ∙ rw
          (
            length-hue_sprites has_context theme gold dpr 0 6,
            length-hue_sprites has_context theme silver dpr 0 6,
          )
          refl

  make_motes-IsIndex :
      (random : ℕ → N) (count : ℕ) (max_radius : N) (k : ℕ)
      → All (λ mote. IsIndex mote.sprite_index) (make_motes d m random count max_radius k)
        × (length (make_motes d m random count max_radius k) ≡ count)
  unfolding make_motes make_mote
  make_motes-IsIndex random zero max_radius k = (tt, refl)
  make_motes-IsIndex random (suc count) max_radius k =
      let (rest, size) = make_motes-IsIndex random count max_radius (k + 13) in
      ((sprite_index_for-IsIndex _ _, rest), ap suc size)

  get_sprite_sheets_for-AreWhole :
      (has_context : Bool) (cache : SpriteCache N) (dpr : N)
      → AreWhole cache
      → IsWhole (get_sprite_sheets_for d m has_context cache dpr).0
        × AreWhole (get_sprite_sheets_for d m has_context cache dpr).1
  unfolding get_sprite_sheets_for
  get_sprite_sheets_for-AreWhole has_context cache dpr ws =
      found-AreWhole (find? (λ entry. m.same entry.0 dpr) cache) cache _ dpr
        (find?-All (λ e. IsWhole e.1) (λ entry. m.same entry.0 dpr) cache ws)
        (record {
          dark_whole = length-build_sprite_sheet has_context dark dpr;
          light_whole = length-build_sprite_sheet has_context light dpr;
        })
        ws

  advance_mote_index :
      (reduce_motion : Bool) (t : N) (mote : Mote N)
      → (advance_mote d m reduce_motion t mote).sprite_index ≡ mote.sprite_index
  unfolding advance_mote
  advance_mote_index true t mote = refl
  advance_mote_index false t mote = refl

  draw_motes_lem :
      (reduce_motion : Bool) (center_x center_y t : N) (sprites : List (Sprite N))
      (motes : List (Mote N))
      → length sprites ≡ 12
      → All (λ mote. IsIndex mote.sprite_index) motes
      → (moved : List (Mote N)) × (paints : List (Paint N)) × (draw_motes d m reduce_motion center_x
            center_y t sprites motes
          ≡ some (moved, paints))
        × All (λ mote. IsIndex mote.sprite_index) moved
        × (length moved ≡ length motes)
  unfolding draw_motes
  draw_motes_lem r x y t sprites [] w h = ([], [], refl, tt, refl)
  draw_motes_lem r x y t sprites (mote ∷ motes) w ((i, e, within), hs) =
      let (moved, paints, f, js, size) = draw_motes_lem r x y t sprites motes w hs in
      let a = advance_mote d m r t mote in
      let index = advance_mote_index r t mote ∙ e in
      let (sprite, g) = get_elem?-within sprites i (omega (arith, within, w)) in
      (
        a ∷ moved,
        paint_mote d m r x y t a sprite ++ paints,
        rw (index, g, f) refl,
        ((i, index, within), js),
        ap suc size,
      )

  draw-IsReady :
      (reduce_motion is_dark : Bool) (s : MoteState N)
      → IsReady s
      → (next : MoteState N) × (paints : List (Paint N)) × (draw d m reduce_motion is_dark s
          ≡ some (next, paints ++ (alpha (d.dec 1 0) ∷ [])))
        × IsReady next
        × (length next.motes ≡ length s.motes)
  unfolding draw
  draw-IsReady r true s h =
      let (moved, paints, e, js, size) =
        draw_motes_lem r s.center_x s.center_y (d.add s.t (d.dec 1 0)) s.sheets.dark_sprites s.motes
          h.whole.dark_whole h.indexed in
      (
        record s { motes = moved; t = d.add s.t (d.dec 1 0) },
        paints,
        rw e refl,
        record { indexed = js; whole = h.whole },
        size,
      )
  draw-IsReady r false s h =
      let (moved, paints, e, js, size) =
        draw_motes_lem r s.center_x s.center_y (d.add s.t (d.dec 1 0)) s.sheets.light_sprites
          s.motes h.whole.light_whole h.indexed in
      (
        record s { motes = moved; t = d.add s.t (d.dec 1 0) },
        paints,
        rw e refl,
        record { indexed = js; whole = h.whole },
        size,
      )

  -- The state after these frames, each with the two tests that the driver passes.
  pub frames : List (Bool × Bool) → MoteState N → Option (MoteState N)
  frames [] s = some s
  frames ((reduce_motion, is_dark) ∷ more) s =
      draw d m reduce_motion is_dark s >>= λ r. frames more r.0

  frames_lem :
      (flags : List (Bool × Bool)) (s : MoteState N)
      → IsReady s
      → (t : MoteState N) × (frames flags s ≡ some t) × (length t.motes ≡ length s.motes)
  unfolding frames
  frames_lem [] s h = (s, refl, refl)
  frames_lem ((r, b) ∷ flags) s h =
      let (next, paints, e, ready, size) = draw-IsReady r b s h in
      let (t, f, size') = frames_lem flags next ready in (t, rw e f, size' ∙ size)

  setup-IsReady :
      (random : ℕ → N) (has_context : Bool) (cache : SpriteCache N) (size : LayerSize N) (dpr : N)
      (k : ℕ)
      → AreWhole cache
      → let made = setup d m random has_context cache size dpr k in
        IsReady made.0 × AreWhole made.1 × (60 ≤ length made.0.motes) × (length made.0.motes ≤ 420)
  unfolding setup
  setup-IsReady random has_context cache size dpr k ws =
      let max_radius = d.mul (m.hypot size.width size.height) (d.dec 6 1) in
      let (n, e, low, high) =
        clamp_lem 60 420 (m.round (d.div (d.mul size.width size.height) (d.dec 2200 0)))
          (omega arith) in
      let (indexed, count) = make_motes-IsIndex random (turns (mote_count d m size)) max_radius k in
      let many = count ∙ ap turns e in
      let (whole, after) = get_sprite_sheets_for-AreWhole has_context cache dpr ws in
      (
        record { indexed = indexed; whole = whole },
        after,
        omega (arith, many, low),
        omega (arith, many, high),
      )

  -- Where the cache holds whole sheets: a setup makes from 60 to 420 motes, whatever the size of the layer,
  -- and leaves whole sheets in the cache; and every later sequence of frames, with motion reduced or not and
  -- in either theme, is drawn to its end, never reading past a sheet, and keeps the number of motes.
  pub setup-frames :
      (random : ℕ → N) (has_context : Bool) (cache : SpriteCache N) (size : LayerSize N) (dpr : N)
      (k : ℕ) (flags : List (Bool × Bool))
      → AreWhole cache
      → let made = setup d m random has_context cache size dpr k in
        AreWhole made.1
        × (t : MoteState N) × (frames flags made.0 ≡ some t)
        × (length t.motes ≡ length made.0.motes)
        × (60 ≤ length t.motes)
        × (length t.motes ≤ 420)
  setup-frames random has_context cache size dpr k flags ws =
      let made = setup d m random has_context cache size dpr k in
      let (ready, after, low, high) = setup-IsReady random has_context cache size dpr k ws in
      let (t, e, same) = frames_lem flags made.0 ready in
      (after, t, e, same, omega (arith, same, low), omega (arith, same, high))
