-- ===== src/Scenes/Frames/Timing.antt =====
-- The times that a scene is updated with.
use build_a_computer.Base.{
  ℕ, ◌≡◌, ◌⊎◌, inl, inr, refl, sym, ◌∙◌, Bool, true, false, ◌||◌, List, ◌∷◌, ◌++◌, ◌==◌, All,
  Bool-cases, arith,
}
use build_a_computer.Base.Real.{JsReal, IsArithmetic}
use build_a_computer.Scenes.Frames.{
  Call, update, Effect, call, request, cancel, render_static, zero_of, started, seconds, delta,
  loop, handle_pointer, handle_visibility, resize, handle_theme, start_loop, created, mount,
  cleanup, is_listening, visibility_changed, Step, fire, wait, resized, hide, reveal, retheme,
  moved, unmount, Reach, here, next,
}
use build_a_computer.Scenes.Frames.Scheduling.{control, IsSingle, split_empty, Reach-IsSingle}

module _ {N : Type 0} (d : JsReal N) where
  -- An update is made where motion is not reduced, with a time that is not negative and a difference
  -- from 0 to 0.1.
  abbrev pub IsTimely : Bool → Call N → Type 0
  IsTimely r (update t dt tilt) =
      (r ≡ false)
      × (d.le (zero_of d) t ≡ true)
      × (d.le (zero_of d) dt ≡ true)
      × (d.le dt (d.dec 1 1) ≡ true)
  IsTimely r _ = Unit

  -- A time that is unset or past.
  abbrev IsPast : N → N → Type 0
  IsPast now x = (d.is_falsy x ≡ true) ⊎ (d.le x now ≡ true)

  record IsTimed (r : Bool) (s : Effect N) : Type 0 where
    called : All (IsTimely r) s.calls
    start_past : IsPast s.time s.start
    last_past : IsPast s.time s.last

  resize-IsTimed : (r : Bool) (s : Effect N) → IsTimed r s → IsTimed r (resize d r s)
  unfolding resize call render_static
  resize-IsTimed true s i = elim (Bool-cases ((s.client_width == 0) || (s.client_height == 0))) [
    | inl e ↦ rw e i
    | inr e ↦ rw e (record {
      called = (tt, (tt, (tt, (tt, i.called))));
      start_past = i.start_past;
      last_past = i.last_past;
    })
  ]
  resize-IsTimed false s i = elim (Bool-cases ((s.client_width == 0) || (s.client_height == 0))) [
    | inl e ↦ rw e i
    | inr e ↦ rw e (record {
      called = (tt, (tt, i.called));
      start_past = i.start_past;
      last_past = i.last_past;
    })
  ]

  theme-IsTimed : (r : Bool) (s : Effect N) → IsTimed r s → IsTimed r (handle_theme d r s)
  unfolding handle_theme call render_static
  theme-IsTimed true s i = record {
    called = (tt, (tt, (tt, i.called)));
    start_past = i.start_past;
    last_past = i.last_past;
  }
  theme-IsTimed false s i = record {
    called = (tt, i.called);
    start_past = i.start_past;
    last_past = i.last_past;
  }

  start-IsTimed : (r : Bool) (s : Effect N) → IsTimed r s → IsTimed r (start_loop d r s)
  unfolding start_loop request
  start-IsTimed true s i = i
  start-IsTimed false s i = record {
    called = i.called;
    start_past = i.start_past;
    last_past = i.last_past;
  }

  module _ (laws : IsArithmetic d) where
    seconds_nonneg :
        (start now : N) → IsPast now start → d.le (zero_of d) (seconds d start now) ≡ true
    unfolding seconds
    seconds_nonneg start now (inl e) =
        rw (seconds, e)
          (laws.div_nonneg (d.sub now now) (laws.sub_nonneg now now (laws.le_refl now)))
    seconds_nonneg start now (inr h) = elim (Bool-cases (d.is_falsy start)) [
      | inl e ↦
          rw (seconds, e)
            (laws.div_nonneg (d.sub now now) (laws.sub_nonneg now now (laws.le_refl now)))
      | inr e ↦ rw (seconds, e) (laws.div_nonneg (d.sub now start) (laws.sub_nonneg now start h))
    ]

    delta_bounds :
        (last now : N)
        → IsPast now last
        → (d.le (zero_of d) (delta d last now) ≡ true)
          × (d.le (delta d last now) (d.dec 1 1) ≡ true)
    unfolding delta
    delta_bounds last now (inl e) = rw (delta, e) (laws.le_refl (zero_of d), laws.dec_pos 1 1)
    delta_bounds last now (inr h) = elim (Bool-cases (d.is_falsy last)) [
      | inl e ↦ rw (delta, e) (laws.le_refl (zero_of d), laws.dec_pos 1 1)
      | inr e ↦
          let dt = d.div (d.sub now last) (d.dec 1000 0) in
          let dt_nonneg = laws.div_nonneg (d.sub now last) (laws.sub_nonneg now last h) in
          rw (delta, e)
            (
              laws.min_nonneg dt (d.dec 1 1) dt_nonneg (laws.dec_pos 1 1),
              laws.min_le dt (d.dec 1 1),
            )
    ]

    IsPast-later : (now later x : N) → d.le now later ≡ true → IsPast now x → IsPast later x
    IsPast-later now later x h (inl e) = inl e
    IsPast-later now later x h (inr e) = inr (laws.le_trans x now later e h)

    started-IsPast : (start now : N) → IsPast now start → IsPast now (started d start now)
    started-IsPast start now p = elim (Bool-cases (d.is_falsy start)) [
      | inl e ↦ rw e (inr (laws.le_refl now))
      | inr e ↦ rw e p
    ]

    fire-IsTimed :
        (r : Bool) (s : Effect N) (before after : List ℕ) (id : ℕ)
        → s.pending ≡ before ++ (id ∷ after)
        → IsSingle r (control s)
        → IsTimed r s
        → IsTimed r (loop d s.time (record s { pending = before ++ after }))
    unfolding loop call request
    fire-IsTimed r s before after id p single i = elim (Bool-cases r) [
      | inl e ↦ absurd (split_empty d id before after (sym p ∙ single.stopped (ground (arith, e))))
      | inr e ↦ record {
        called = (
          tt,
          (
            (
              e,
              seconds_nonneg s.start s.time i.start_past,
              (delta_bounds s.last s.time i.last_past).0,
              (delta_bounds s.last s.time i.last_past).1,
            ),
            i.called,
          ),
        );
        start_past = started-IsPast s.start s.time i.start_past;
        last_past = inr (laws.le_refl s.time);
      }
    ]

    changed-IsTimed :
        (r b h : Bool) (s : Effect N)
        → is_listening d r s ≡ b
        → IsTimed r s
        → IsTimed r (visibility_changed d r h s)
    unfolding handle_visibility request cancel
    changed-IsTimed r false h s l i =
        rw l (record { called = i.called; start_past = i.start_past; last_past = i.last_past })
    changed-IsTimed r true true s l i =
        rw l (record { called = i.called; start_past = i.start_past; last_past = i.last_past })
    changed-IsTimed r true false s l i =
        rw l
          (record { called = i.called; start_past = i.start_past; last_past = inl laws.zero_falsy })

    Step-IsTimed :
        (r : Bool) {s t : Effect N}
        → Step d r s t
        → IsSingle r (control s)
        → IsTimed r s
        → IsTimed r t
    unfolding handle_pointer cleanup call cancel
    Step-IsTimed r (fire s before after id v p) single i =
        fire-IsTimed r s before after id p single i
    Step-IsTimed r (wait s now h) single i = record {
      called = i.called;
      start_past = IsPast-later s.time now s.start h i.start_past;
      last_past = IsPast-later s.time now s.last h i.last_past;
    }
    Step-IsTimed r (resized s w h m) single i =
        resize-IsTimed r (record s { client_width = w; client_height = h })
          (record { called = i.called; start_past = i.start_past; last_past = i.last_past })
    Step-IsTimed r (hide s v) single i = changed-IsTimed r (is_listening d r s) true s refl i
    Step-IsTimed r (reveal s v) single i = changed-IsTimed r (is_listening d r s) false s refl i
    Step-IsTimed r (retheme s b m) single i =
        theme-IsTimed r (record s { is_dark = b })
          (record { called = i.called; start_past = i.start_past; last_past = i.last_past })
    Step-IsTimed r (moved s x y w h l) single i = record {
      called = i.called;
      start_past = i.start_past;
      last_past = i.last_past;
    }
    Step-IsTimed r (unmount s m) single i = record {
      called = (tt, (tt, i.called));
      start_past = i.start_past;
      last_past = i.last_past;
    }

    module _ (r is_hidden is_dark : Bool) (w h : ℕ) (time : N) where
      mount-IsTimed : IsTimed r (mount d r is_hidden is_dark w h time)
      unfolding mount
      mount-IsTimed =
          let s = created d is_hidden is_dark w h time in
          start-IsTimed r (resize d r s) (
            resize-IsTimed r s (record {
              called = (tt, tt);
              start_past = inl laws.zero_falsy;
              last_past = inl laws.zero_falsy;
            }))

      Reach-IsTimed :
          {s : Effect N} → Reach d r (mount d r is_hidden is_dark w h time) s → IsTimed r s
      Reach-IsTimed here = mount-IsTimed
      Reach-IsTimed (next reached step) =
          Step-IsTimed r step (Reach-IsSingle d r is_hidden is_dark w h time reached)
            (Reach-IsTimed reached)

      -- Where the page's time does not run backwards and its arithmetic keeps order: whatever happens to a
      -- scene, each update that it was given was made where motion is not reduced, with a time since the
      -- start that is not negative and a time since the last frame from 0 to 0.1 seconds.
      pub Reach-called :
          {s : Effect N}
          → Reach d r (mount d r is_hidden is_dark w h time) s
          → All (IsTimely r) s.calls
      Reach-called reached = (Reach-IsTimed reached).called
