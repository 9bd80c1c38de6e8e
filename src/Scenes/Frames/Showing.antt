-- ===== src/Scenes/Frames/Showing.antt =====
-- The theme that a scene has, and the still frame where motion is reduced.
use build_a_computer.Base.{
  ℕ, ◌≡◌, inl, inr, refl, Bool, true, false, ◌||◌, List, [], ◌∷◌, ◌==◌, Bool-cases, Option, none,
  some, sym, ◌∙◌, arith,
}
use build_a_computer.Base.Real.{JsReal}
use build_a_computer.Scenes.Frames.{
  Call, pose, render, set_theme, Effect, call, request, cancel, render_static, loop, handle_pointer,
  handle_visibility, resize, handle_theme, start_loop, created, mount, cleanup, is_listening,
  visibility_changed, Step, fire, wait, resized, hide, reveal, retheme, moved, unmount, Reach, here,
  next,
}
use build_a_computer.Scenes.Frames.Scheduling.{control, split_empty, Reach-IsSingle, IsSingle}

module _ {N : Type 0} where
  -- The theme that the controller was given last.
  pub theme_of : List (Call N) → Option Bool
  theme_of [] = none
  theme_of (set_theme b ∷ cs) = some b
  theme_of (_ ∷ cs) = theme_of cs

  -- The calls end with a pose and its rendering, or there was none but that of the theme.
  pub data IsStill : List (Call N) → Type 0 where
    empty : (is_dark : Bool) → IsStill (set_theme is_dark ∷ [])
    posed : (cs : List (Call N)) → IsStill (render ∷ pose ∷ cs)

  -- While the component is mounted, the controller has the theme of the page, and where motion is reduced
  -- nothing was changed since the last rendering.
  pub record IsCurrent (reduce_motion : Bool) (s : Effect N) : Type 0 where
    pub themed : s.is_mounted ≡ true → theme_of s.calls ≡ some s.is_dark
    pub still : reduce_motion ≡ true → s.is_mounted ≡ true → IsStill s.calls

module _ {N : Type 0} (d : JsReal N) where
  resize-IsCurrent : (r : Bool) (s : Effect N) → IsCurrent r s → IsCurrent r (resize d r s)
  unfolding resize call render_static theme_of
  resize-IsCurrent true s i = elim (Bool-cases ((s.client_width == 0) || (s.client_height == 0))) [
    | inl e ↦ rw e i
    | inr e ↦ rw e (record { themed = i.themed; still = λ _ _. posed _ })
  ]
  resize-IsCurrent false s i = elim (Bool-cases ((s.client_width == 0) || (s.client_height == 0))) [
    | inl e ↦ rw e i
    | inr e ↦ rw e (record { themed = i.themed; still = λ f _. absurd (cc f) })
  ]

  theme-IsCurrent : (r : Bool) (s : Effect N) → IsCurrent r (handle_theme d r s)
  unfolding handle_theme call render_static theme_of
  theme-IsCurrent true s = record { themed = λ _. refl; still = λ _ _. posed _ }
  theme-IsCurrent false s = record { themed = λ _. refl; still = λ f _. absurd (cc f) }

  start-IsCurrent : (r : Bool) (s : Effect N) → IsCurrent r s → IsCurrent r (start_loop d r s)
  unfolding start_loop request
  start-IsCurrent true s i = i
  start-IsCurrent false s i = record { themed = i.themed; still = i.still }

  changed-IsCurrent :
      (r b h : Bool) (s : Effect N)
      → is_listening d r s ≡ b
      → IsCurrent r s
      → IsCurrent r (visibility_changed d r h s)
  unfolding handle_visibility request cancel
  changed-IsCurrent r false h s l i = rw l (record { themed = i.themed; still = i.still })
  changed-IsCurrent r true true s l i = rw l (record { themed = i.themed; still = i.still })
  changed-IsCurrent r true false s l i = rw l (record { themed = i.themed; still = i.still })

  Step-IsCurrent :
      (r : Bool) {s t : Effect N}
      → Step d r s t
      → IsSingle r (control s)
      → IsCurrent r s
      → IsCurrent r t
  unfolding handle_pointer cleanup call cancel loop request theme_of
  Step-IsCurrent r (fire s before after id v p) single i = record {
    themed = i.themed;
    still =
        λ e m. absurd (split_empty d id before after (sym p ∙ single.stopped (ground (arith, e))));
  }
  Step-IsCurrent r (wait s now h) single i = record { themed = i.themed; still = i.still }
  Step-IsCurrent r (resized s w h m) single i =
      resize-IsCurrent r (record s { client_width = w; client_height = h })
        (record { themed = i.themed; still = i.still })
  Step-IsCurrent r (hide s v) single i = changed-IsCurrent r (is_listening d r s) true s refl i
  Step-IsCurrent r (reveal s v) single i = changed-IsCurrent r (is_listening d r s) false s refl i
  Step-IsCurrent r (retheme s b m) single i = theme-IsCurrent r (record s { is_dark = b })
  Step-IsCurrent r (moved s x y w h l) single i = record { themed = i.themed; still = i.still }
  Step-IsCurrent r (unmount s m) single i = record {
    themed = λ e. absurd (cc e);
    still = λ _ e. absurd (cc e);
  }

  module _ (r is_hidden is_dark : Bool) (w h : ℕ) (time : N) where
    mount-IsCurrent : IsCurrent r (mount d r is_hidden is_dark w h time)
    unfolding mount theme_of
    mount-IsCurrent =
        let s = created d is_hidden is_dark w h time in
        start-IsCurrent r (resize d r s)
          (resize-IsCurrent r s (record { themed = λ _. refl; still = λ _ _. empty is_dark }))

    -- Whatever happens to a scene: while it is mounted, its controller was last given the theme that the page
    -- has; and where motion is reduced, its last calls are a pose and a rendering, so that no change of the
    -- size or of the theme is left unseen, or nothing has been called but the first setting of the theme.
    pub Reach-IsCurrent :
        {s : Effect N} → Reach d r (mount d r is_hidden is_dark w h time) s → IsCurrent r s
    Reach-IsCurrent here = mount-IsCurrent
    Reach-IsCurrent (next reached step) =
        Step-IsCurrent r step (Reach-IsSingle d r is_hidden is_dark w h time reached)
          (Reach-IsCurrent reached)
