-- ===== src/Canvas/Drawing.antt =====
-- What a frame leaves on the canvas.
use mathlib.Core.List.{append-nil, append_assoc}
use build_a_computer.Base.{
  ◌≡◌, refl, sym, ap, ◌∙◌, Bool, true, false, not, some, List, [], ◌∷◌, ◌++◌, if◌then◌else◌, All,
}
use build_a_computer.Canvas.{BoundLayer, draw_layer, draw_frame, painting}
use build_a_computer.Canvas.Context.{
  Rect, Op, save, restore, clip, translate, clear, paint, Frame, Mark, cleared, painted, Context,
  perform, run,
}

module _ {N P : Type 0} where
  -- A drawing that restores what it saves.
  pub data IsBalanced : List (Op N P) → Type 0 where
    nothing : IsBalanced []
    clipped : (r : Rect N) {ops : List (Op N P)} → IsBalanced ops → IsBalanced (clip r ∷ ops)
    translated : (x y : N) {ops : List (Op N P)} → IsBalanced ops → IsBalanced (translate x y ∷ ops)
    erased : (r : Rect N) {ops : List (Op N P)} → IsBalanced ops → IsBalanced (clear r ∷ ops)
    drawn : (p : P) {ops : List (Op N P)} → IsBalanced ops → IsBalanced (paint p ∷ ops)
    nested :
        {body rest : List (Op N P)}
        → IsBalanced body
        → IsBalanced rest
        → IsBalanced (save ∷ (body ++ (restore ∷ rest)))

  run-append : (xs ys : List (Op N P)) (c : Context N P) → run (xs ++ ys) c ≡ run ys (run xs c)
  unfolding run
  run-append [] ys c = refl
  run-append (o ∷ xs) ys c = run-append xs ys (perform o c)

  abbrev context : List (Frame N) → Frame N → List (Mark N P) → Context N P
  context s f m = record { stack = s; frame = f; marks = m }

  -- A drawing as a change of the frame and the marks that it adds, under any stack and marks.
  abbrev Effect : List (Op N P) → Frame N → Type 0
  Effect ops f =
      (g : Frame N) × (ms : List (Mark N P)) × ((stack : List (Frame N)) (marks : List (Mark N P))
        → run ops (context stack f marks) ≡ context stack g (marks ++ ms))

  pub effect : {ops : List (Op N P)} → IsBalanced ops → (f : Frame N) → Effect ops f
  unfolding run perform
  effect nothing f = (f, [], λ s m. ap (context s f) (sym (append-nil m)))
  effect (clipped r b) f = effect b (record f { clips = f.clips ++ (f.offsets, r) ∷ [] })
  effect (translated x y b) f = effect b (record f { offsets = f.offsets ++ (x, y) ∷ [] })
  effect (erased r b) f =
      let (g, ms, e) = effect b f in
      (
        g,
        cleared f r ∷ ms,
        λ s m.
            e s (m ++ cleared f r ∷ []) ∙ ap (context s g) (append_assoc m (cleared f r ∷ []) ms),
      )
  effect (drawn p b) f =
      let (g, ms, e) = effect b f in
      (
        g,
        painted f p ∷ ms,
        λ s m.
            e s (m ++ painted f p ∷ []) ∙ ap (context s g) (append_assoc m (painted f p ∷ []) ms),
      )
  effect (nested {body} {rest} b r) f =
      let (g, ms, e) = effect b f in
      let (h, ns, e') = effect r f in
      (
        h,
        ms ++ ns,
        λ s m.
            run-append body (restore ∷ rest) (context (f ∷ s) f m)
            ∙ ap (run (restore ∷ rest)) (e (f ∷ s) m)
            ∙ e' s (m ++ ms)
            ∙ ap (context s h) (append_assoc m ms ns),
      )

  -- What a drawing paints where it is alone on a canvas with the frame.
  unfoldable pub alone : List (Op N P) → Frame N → List (Mark N P)
  alone ops f = (run ops (context [] f [])).marks

  effect-alone :
      {ops : List (Op N P)} (b : IsBalanced ops) (f : Frame N) → (effect b f).1 ≡ alone ops f
  unfolding alone
  effect-alone b f = sym (ap (λ (c : Context N P). c.marks) ((effect b f).2 [] []))

-- Inside a viewport: clipped to it, with its corner as the origin.
abbrev pub inside : {N : Type 0} → Rect N → Frame N → Frame N
inside v f = record {
  offsets = f.offsets ++ (v.x, v.y) ∷ [];
  clips = f.clips ++ (f.offsets, v) ∷ [];
}

module _ {N P : Type 0} where
  base_if : Bool → Rect N → List (Op N P)
  base_if own r = if not own then clear r ∷ [] else []

  base-IsBalanced :
      (own : Bool) (r : Rect N) (ops : List (Op N P))
      → IsBalanced ops
      → IsBalanced (base_if own r ++ ops)
  unfolding base_if effect
  base-IsBalanced true r ops h = h
  base-IsBalanced false r ops h = erased r h

  base-alone :
      (own : Bool) (r : Rect N) (ops : List (Op N P)) (f : Frame N)
      → IsBalanced ops
      → alone (base_if own r ++ ops) f ≡ (if own then [] else cleared f r ∷ []) ++ alone ops f
  unfolding base_if effect
  base-alone true r ops f h = refl
  base-alone false r ops f h =
      sym (effect-alone (erased r h) f) ∙ ap (λ ms. cleared f r ∷ ms) (effect-alone h f)

  framed_run :
      (ops : List (Op N P)) (v : Rect N) (c : Context N P)
      → IsBalanced ops
      → run (save ∷ clip v ∷ translate v.x v.y ∷ (ops ++ (restore ∷ []))) c
        ≡ record c { marks = c.marks ++ alone ops (inside v c.frame) }
  unfolding run perform
  framed_run ops v c h =
      let (g, ms, e) = effect h (inside v c.frame) in
      run-append ops (restore ∷ []) (context (c.frame ∷ c.stack) (inside v c.frame) c.marks)
      ∙ ap (run (restore ∷ [])) (e (c.frame ∷ c.stack) c.marks)
      ∙ ap (λ ns. record c { marks = c.marks ++ ns }) (effect-alone h (inside v c.frame))

module _ {N P U : Type 0} (zero : N) (elapsed : N) (reduce_motion is_dark : Bool) where
  abbrev paints : BoundLayer N P U → List (Op N P)
  paints = painting zero elapsed reduce_motion is_dark

  -- What a layer leaves: its region cleared, unless it paints its own base, and then what it paints
  -- alone inside its viewport.
  abbrev pub layer_marks : BoundLayer N P U → Rect N → Frame N → List (Mark N P)
  layer_marks b v f =
      (if b.layer.paints_own_base
        then []
        else cleared (inside v f) (record {
          x = zero;
          y = zero;
          width = b.effective_size.width;
          height = b.effective_size.height;
        })
          ∷ [])
      ++ alone (paints b) (inside v f)

  -- A layer with a viewport, whose drawing restores what it saves.
  pub record IsConfined (b : BoundLayer N P U) : Type 0 where
    pub region : Rect N
    pub placed : b.viewport ≡ some region
    pub balanced : IsBalanced (paints b)

  unfoldable pub frame_marks :
      (bound : List (BoundLayer N P U)) → All IsConfined bound → Frame N → List (Mark N P)
  frame_marks [] _ f = []
  frame_marks (b ∷ bound) (h, hs) f = layer_marks b h.region f ++ frame_marks bound hs f

  layer_run :
      (b : BoundLayer N P U) (v : Rect N) (c : Context N P)
      → IsBalanced (paints b)
      → run (draw_layer zero elapsed reduce_motion is_dark b (some v)) c
        ≡ record c { marks = c.marks ++ layer_marks b v c.frame }
  unfolding base_if effect
  layer_run b v c h =
      let own = b.layer.paints_own_base in
      let whole : Rect N = record {
        x = zero;
        y = zero;
        width = b.effective_size.width;
        height = b.effective_size.height;
      } in
      framed_run (base_if own whole ++ paints b) v c (base-IsBalanced own whole (paints b) h)
      ∙ ap (λ ns. record c { marks = c.marks ++ ns })
          (base-alone own whole (paints b) (inside v c.frame) h)

  -- Where each layer has a viewport and a drawing that restores what it saves, a frame leaves the
  -- context as it found it, and adds, in the order of the layers, what each of them paints alone
  -- inside its viewport, on a region that was cleared unless the layer paints its own base.
  pub draw_frame-frame_marks :
      (bound : List (BoundLayer N P U)) (confined : All IsConfined bound) (c : Context N P)
      → run (draw_frame zero elapsed reduce_motion is_dark bound) c
        ≡ record c { marks = c.marks ++ frame_marks bound confined c.frame }
  unfolding draw_frame frame_marks run
  draw_frame-frame_marks [] _ c = ap (λ ms. record c { marks = ms }) (sym (append-nil c.marks))
  draw_frame-frame_marks (b ∷ bound) (h, hs) c =
      let first = draw_layer zero elapsed reduce_motion is_dark b in
      let d : Context N P = record c { marks = c.marks ++ layer_marks b h.region c.frame } in
      run-append (first b.viewport) (draw_frame zero elapsed reduce_motion is_dark bound) c
      ∙ ap (λ o. run (draw_frame zero elapsed reduce_motion is_dark bound) (run (first o) c))
          h.placed
      ∙ ap (run (draw_frame zero elapsed reduce_motion is_dark bound))
          (layer_run b h.region c h.balanced)
      ∙ draw_frame-frame_marks bound hs d
      ∙ ap (λ ms. record c { marks = ms })
          (append_assoc c.marks (layer_marks b h.region c.frame) (frame_marks bound hs c.frame))
