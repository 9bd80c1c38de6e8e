-- ===== src/Canvas/Scheduling.antt =====
-- The frame requests of a driver that is mounted in a visible document.
use build_a_computer.Base.{
  ℕ, ◌≡◌, refl, sym, ap, ◌∙◌, Bool, true, false, not, ◌&&◌, List, [], ◌∷◌, ◌++◌, if◌then◌else◌,
  ==_refl, arith,
}
use build_a_computer.Canvas.Scheduler.{
  Loop, request, cancel, resize, draw_frame, loop, mount, handle_resize, handle_visibility,
  handle_theme, cleanup, visibility_changed, Step, fire, resized, hide, reveal, retheme, unmount,
  Reach, here, next,
}

-- The loop should run.
abbrev pub is_active : Bool → Loop → Bool
is_active reduce_motion s = s.is_listening && (not s.is_hidden && not reduce_motion)

-- Exactly one request is held while the loop should run, the one that can be cancelled, and else none.
pub IsExact : Bool → Loop → Type 0
IsExact reduce_motion s = s.pending ≡ (if is_active reduce_motion s then s.raf_id ∷ [] else [])

cancel_none :
    (s : Loop) (b : Bool) → s.pending ≡ (if b then s.raf_id ∷ [] else []) → (cancel s).pending ≡ []
unfolding cancel
cancel_none s true e = rw e (ground (arith, ==_refl s.raf_id))
cancel_none s false e = rw e refl

split_none :
    (b : Bool) (x id : ℕ) (before after : List ℕ)
    → before ++ (id ∷ after) ≡ (if b then x ∷ [] else [])
    → (b ≡ true) × (before ++ after ≡ [])
split_none true x id [] after e = (refl, cc e)
split_none false x id [] after e = cc e
split_none true x id (y ∷ []) after e = cc e
split_none true x id (y ∷ z ∷ before) after e = cc e
split_none false x id (y ∷ before) after e = cc e

resize_lem :
    (r : Bool) (s : Loop)
    → s.is_hidden ≡ false
    → s.is_listening ≡ true
    → IsExact r s
    → IsExact r (handle_resize r s)
unfolding IsExact handle_resize request draw_frame resize cancel
resize_lem true s v l i = rw (l, v) (cancel_none s (is_active true s) i)
resize_lem false s v l i =
    rw (l, v) (ap (λ ids. s.fresh ∷ ids) (cancel_none s (is_active false s) i))

hide_lem :
    (r b : Bool) (s : Loop)
    → s.is_listening ≡ b
    → IsExact r s
    → IsExact r (visibility_changed r true s)
unfolding IsExact handle_visibility cancel
hide_lem r true s l i = rw l (cancel_none s (is_active r s) i)
hide_lem r false s l i = rw l (i ∙ rw l refl)

reveal_lem :
    (r b : Bool) (s : Loop)
    → s.is_listening ≡ b
    → s.is_hidden ≡ true
    → IsExact r s
    → IsExact r (visibility_changed r false s)
unfolding IsExact handle_visibility request
reveal_lem true true s l v i = rw l (i ∙ rw (l, v) refl)
reveal_lem false true s l v i = rw l (ap (λ ids. s.fresh ∷ ids) (i ∙ rw (l, v) refl))
reveal_lem true false s l v i = rw l (i ∙ rw l refl)
reveal_lem false false s l v i = rw l (i ∙ rw l refl)

retheme_lem : (r : Bool) (s : Loop) → IsExact r s → IsExact r (handle_theme r s)
unfolding IsExact handle_theme draw_frame
retheme_lem true s i = i
retheme_lem false s i = i

Step-IsExact : (r : Bool) {s t : Loop} → Step r s t → IsExact r s → IsExact r t
unfolding IsExact loop request draw_frame cleanup cancel
Step-IsExact r (fire s before after id v p) i =
    let (active, none_left) = split_none (is_active r s) s.raf_id id before after (sym p ∙ i) in
    rw (active, none_left) refl
Step-IsExact r (resized s v l) i = resize_lem r s v l i
Step-IsExact r (hide s v) i = hide_lem r s.is_listening s refl i
Step-IsExact r (reveal s v) i = reveal_lem r s.is_listening s refl v i
Step-IsExact r (retheme s l) i = retheme_lem r s i
Step-IsExact r (unmount s l) i = cancel_none s (is_active r s) i

mount-IsExact : (r : Bool) → IsExact r (mount r false)
unfolding IsExact mount request draw_frame resize
mount-IsExact true = refl
mount-IsExact false = refl

-- Whatever happens to a driver that is mounted in a document that is not hidden, frames, resizes, changes of
-- the theme and of the visibility, and its removal, in any order: the browser holds exactly one frame
-- request, the one whose id the driver keeps, while the driver is mounted, the document is shown and motion
-- is not reduced, and it holds none else, so that nothing runs on after the removal.
pub Reach-IsExact : (r : Bool) {s : Loop} → Reach r (mount r false) s → IsExact r s
Reach-IsExact r here = mount-IsExact r
Reach-IsExact r (next reached step) = Step-IsExact r step (Reach-IsExact r reached)
