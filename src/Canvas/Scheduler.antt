-- ===== src/Canvas/Scheduler.antt =====
-- The animation loop of frontend/src/components/canvas-layer-driver.tsx, with the browser's frame
-- requests: what the effect does when it is mounted, its handlers, and its cleanup. `lastTime`, which
-- nothing reads but the test of its own reset, is left out.
use build_a_computer.Base.{
  ℕ, suc, ◌≡◌, Bool, true, false, not, List, [], ◌∷◌, ◌++◌, if◌then◌else◌, filter, ◌==◌,
}

pub record Loop : Type 0 where
  -- The frame requests that the browser holds, and the id of its next one.
  pub pending : List ℕ
  pub fresh : ℕ
  pub raf_id : ℕ
  -- `document.hidden`, and whether the listeners are attached.
  pub is_hidden : Bool
  pub is_listening : Bool
  -- How often the layers were set up and drawn.
  pub setups : ℕ
  pub frames : ℕ

-- `rafId = requestAnimationFrame(loop)`.
unfoldable pub request : Loop → Loop
request s = record s { pending = s.fresh ∷ s.pending; raf_id = s.fresh; fresh = suc s.fresh }

-- `cancelAnimationFrame(rafId)`.
unfoldable pub cancel : Loop → Loop
cancel s = record s { pending = filter (λ id. not (id == s.raf_id)) s.pending }

unfoldable pub resize : Loop → Loop
resize s = record s { setups = suc s.setups }

unfoldable pub draw_frame : Loop → Loop
draw_frame s = record s { frames = suc s.frames }

unfoldable pub loop : Loop → Loop
unfolding request draw_frame
loop s = request (draw_frame s)

module _ (reduce_motion : Bool) where
  -- `if (reduceMotion) drawFrame(0); else rafId = requestAnimationFrame(loop);`.
  abbrev pub draw_or_request : Loop → Loop
  draw_or_request s = if reduce_motion then draw_frame s else request s

  -- The effect, in a document that is hidden or not.
  unfoldable pub mount : Bool → Loop
  unfolding resize request draw_frame
  mount is_hidden =
      let s : Loop = record {
        pending = [];
        fresh = 1;
        raf_id = 0;
        is_hidden = is_hidden;
        is_listening = false;
        setups = 0;
        frames = 0;
      } in
      record (draw_or_request (resize s)) { is_listening = true }

  unfoldable pub handle_resize : Loop → Loop
  unfolding cancel resize request draw_frame
  handle_resize s = draw_or_request (resize (cancel s))

  unfoldable pub handle_visibility : Loop → Loop
  unfolding cancel request
  handle_visibility s = if s.is_hidden then cancel s else if not reduce_motion then request s else s

  -- The callback of `observeTheme`.
  unfoldable pub handle_theme : Loop → Loop
  unfolding draw_frame
  handle_theme s = if reduce_motion then draw_frame s else s

  unfoldable pub cleanup : Loop → Loop
  unfolding cancel
  cleanup s = cancel (record s { is_listening = false })

  -- The document is hidden or shown.
  abbrev pub visibility_changed : Bool → Loop → Loop
  visibility_changed h s =
      if s.is_listening
      then handle_visibility (record s { is_hidden = h })
      else record s { is_hidden = h }

  -- What may happen: a frame, which the browser gives to a document that is not hidden, a change of the
  -- size, which it reports before a frame, of the visibility or of the theme, and the removal of the
  -- component.
  pub data Step : Loop → Loop → Type 0 where
    fire :
        (s : Loop) (before after : List ℕ) (id : ℕ)
        → s.is_hidden ≡ false
        → s.pending ≡ before ++ (id ∷ after)
        → Step s (loop (record s { pending = before ++ after }))
    resized : (s : Loop) → s.is_hidden ≡ false → s.is_listening ≡ true → Step s (handle_resize s)
    hide : (s : Loop) → s.is_hidden ≡ false → Step s (visibility_changed true s)
    reveal : (s : Loop) → s.is_hidden ≡ true → Step s (visibility_changed false s)
    retheme : (s : Loop) → s.is_listening ≡ true → Step s (handle_theme s)
    unmount : (s : Loop) → s.is_listening ≡ true → Step s (cleanup s)

  pub data Reach (r : Loop) : Loop → Type 0 where
    here : Reach r r
    next : {s t : Loop} → Reach r s → Step s t → Reach r t
