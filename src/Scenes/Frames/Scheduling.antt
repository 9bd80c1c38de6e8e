-- ===== src/Scenes/Frames/Scheduling.antt =====
-- The frame requests of a scene.
use build_a_computer.Base.{
  ℕ, ◌≡◌, ◌⊎◌, inl, inr, refl, sym, ap, ◌∙◌, Bool, true, false, not, ◌&&◌, ◌||◌, List, [], ◌∷◌,
  ◌++◌, ◌==◌, ==_refl, arith, Bool-cases,
}
use build_a_computer.Base.Real.{JsReal}
use build_a_computer.Scenes.Frames.{
  Effect, call, request, cancel, render_static, loop, handle_pointer, handle_visibility, resize,
  handle_theme, start_loop, created, mount, cleanup, is_listening, visibility_changed, Step, fire,
  wait, resized, hide, reveal, retheme, moved, unmount, Reach, here, next,
}

-- What the frame requests depend on.
pub record Control : Type 0 where
  pub pending : List ℕ
  pub raf_id : ℕ
  pub is_hidden : Bool
  pub is_mounted : Bool

abbrev pub control : {N : Type 0} → Effect N → Control
control s = record {
  pending = s.pending;
  raf_id = s.raf_id;
  is_hidden = s.is_hidden;
  is_mounted = s.is_mounted;
}

-- One request at most is held, the one that can be cancelled; exactly one while the component is
-- mounted, the page is shown and motion is not reduced; and none once the component is removed, or
-- where motion is reduced.
pub record IsSingle (reduce_motion : Bool) (c : Control) : Type 0 where
  pub at_most : (c.pending ≡ []) ⊎ (c.pending ≡ c.raf_id ∷ [])
  pub running :
      c.is_mounted && (not reduce_motion && not c.is_hidden) ≡ true → c.pending ≡ c.raf_id ∷ []
  pub stopped : c.is_mounted && not reduce_motion ≡ false → c.pending ≡ []

module _ {N : Type 0} (d : JsReal N) where
  resize-control : (r : Bool) (s : Effect N) → control (resize d r s) ≡ control s
  unfolding resize call render_static
  resize-control true s = elim (Bool-cases ((s.client_width == 0) || (s.client_height == 0))) [
    | inl e ↦ rw e refl
    | inr e ↦ rw e refl
  ]
  resize-control false s = elim (Bool-cases ((s.client_width == 0) || (s.client_height == 0))) [
    | inl e ↦ rw e refl
    | inr e ↦ rw e refl
  ]

  theme-control : (r : Bool) (s : Effect N) → control (handle_theme d r s) ≡ control s
  unfolding handle_theme call render_static
  theme-control true s = refl
  theme-control false s = refl

  pub cancel_none :
      (s : Effect N) → (s.pending ≡ []) ⊎ (s.pending ≡ s.raf_id ∷ []) → (cancel s).pending ≡ []
  unfolding cancel
  cancel_none s (inl e) = rw e refl
  cancel_none s (inr e) = rw e (ground (arith, ==_refl s.raf_id))

  split_single :
      (x id : ℕ) (before after : List ℕ) → before ++ (id ∷ after) ≡ x ∷ [] → before ++ after ≡ []
  split_single x id [] after e = cc e
  split_single x id (y ∷ []) after e = cc e
  split_single x id (y ∷ z ∷ before) after e = cc e

  pub split_empty : (id : ℕ) (before after : List ℕ) → ¬ (before ++ (id ∷ after) ≡ [])
  split_empty id [] after e = cc e
  split_empty id (y ∷ before) after e = cc e

  fire-IsSingle :
      (r : Bool) (s : Effect N) (before after : List ℕ) (id : ℕ)
      → s.pending ≡ before ++ (id ∷ after)
      → IsSingle r (control s)
      → IsSingle r (control (loop d s.time (record s { pending = before ++ after })))
  unfolding loop call request
  fire-IsSingle r s before after id p i = elim i.at_most [
    | inl none ↦ absurd (split_empty id before after (sym p ∙ none))
    | inr one ↦
        let left = split_single s.raf_id id before after (sym p ∙ one) in
        record {
          at_most = inr (ap (λ ids. s.fresh ∷ ids) left);
          running = λ _. ap (λ ids. s.fresh ∷ ids) left;
          stopped = λ e. absurd (split_empty id before after (sym p ∙ i.stopped e));
        }
  ]

  hide-IsSingle :
      (r b : Bool) (s : Effect N)
      → is_listening d r s ≡ b
      → IsSingle r (control s)
      → IsSingle r (control (visibility_changed d r true s))
  unfolding handle_visibility request
  hide-IsSingle r true s l i =
      let none = cancel_none s i.at_most in
      rw l (record { at_most = inl none; running = λ e. ground arith; stopped = λ _. none })
  hide-IsSingle r false s l i =
      rw l (record { at_most = i.at_most; running = λ e. ground arith; stopped = i.stopped })

  reveal-IsSingle :
      (r b : Bool) (s : Effect N)
      → is_listening d r s ≡ b
      → IsSingle r (control s)
      → IsSingle r (control (visibility_changed d r false s))
  unfolding handle_visibility request
  reveal-IsSingle r true s l i =
      let one = ap (λ ids. s.fresh ∷ ids) (cancel_none s i.at_most) in
      rw l (record { at_most = inr one; running = λ _. one; stopped = λ e. cc (l, e) })
  reveal-IsSingle r false s l i =
      rw l (record { at_most = i.at_most; running = λ e. ground arith; stopped = i.stopped })

  unmount-IsSingle :
      (r : Bool) (s : Effect N) → IsSingle r (control s) → IsSingle r (control (cleanup s))
  unfolding cleanup call cancel
  unmount-IsSingle r s i =
      let none = cancel_none s i.at_most in
      record { at_most = inl none; running = λ e. cc e; stopped = λ _. none }

  Step-IsSingle :
      (r : Bool) {s t : Effect N} → Step d r s t → IsSingle r (control s) → IsSingle r (control t)
  unfolding handle_pointer
  Step-IsSingle r (fire s before after id v p) i = fire-IsSingle r s before after id p i
  Step-IsSingle r (wait s now h) i = i
  Step-IsSingle r (resized s w h m) i = rw (resize-control r _) i
  Step-IsSingle r (hide s v) i = hide-IsSingle r (is_listening d r s) s refl i
  Step-IsSingle r (reveal s v) i = reveal-IsSingle r (is_listening d r s) s refl i
  Step-IsSingle r (retheme s b m) i = rw (theme-control r _) i
  Step-IsSingle r (moved s x y w h l) i = i
  Step-IsSingle r (unmount s m) i = unmount-IsSingle r s i

  start-IsSingle :
      (r : Bool) (s : Effect N)
      → s.pending ≡ []
      → s.is_mounted ≡ true
      → IsSingle r (control (start_loop d r s))
  unfolding start_loop request
  start-IsSingle true s p m = record {
    at_most = inl p;
    running = λ e. absurd (cc (m, e));
    stopped = λ _. p;
  }
  start-IsSingle false s p m =
      let one = ap (λ ids. s.fresh ∷ ids) p in
      record { at_most = inr one; running = λ _. one; stopped = λ e. absurd (cc (m, e)) }

  mount-IsSingle :
      (r is_hidden is_dark : Bool) (w h : ℕ) (time : N)
      → IsSingle r (control (mount d r is_hidden is_dark w h time))
  unfolding mount
  mount-IsSingle r is_hidden is_dark w h time =
      let s = created d is_hidden is_dark w h time in
      start-IsSingle r (resize d r s) (ap (λ (c : Control). c.pending) (resize-control r s))
        (ap (λ (c : Control). c.is_mounted) (resize-control r s))

  -- Whether the page is hidden when the scene is mounted or not, and whatever happens then, in any order:
  -- the browser holds one frame request at most, the one whose id the effect keeps; exactly one while the
  -- component is mounted, the page shown and motion not reduced; and none after the removal of the
  -- component, or where motion is reduced.
  pub Reach-IsSingle :
      (r is_hidden is_dark : Bool) (w h : ℕ) (time : N) {s : Effect N}
      → Reach d r (mount d r is_hidden is_dark w h time) s
      → IsSingle r (control s)
  Reach-IsSingle r is_hidden is_dark w h time here = mount-IsSingle r is_hidden is_dark w h time
  Reach-IsSingle r is_hidden is_dark w h time (next reached step) =
      Step-IsSingle r step (Reach-IsSingle r is_hidden is_dark w h time reached)
