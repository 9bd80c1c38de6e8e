-- ===== src/Scenes/Frames/Removal.antt =====
-- A scene that has been removed.
use build_a_computer.Base.{ℕ, ◌≡◌, refl, Bool, true, false, List, [], ◌∷◌, sym, ◌∙◌}
use build_a_computer.Base.Real.{JsReal}
use build_a_computer.Scenes.Frames.{
  Call, dispose, dispose_scene, Effect, call, cancel, handle_pointer, mount, cleanup,
  visibility_changed, Step, fire, wait, resized, hide, reveal, retheme, moved, unmount, Reach, here,
  next,
}
use build_a_computer.Scenes.Frames.Scheduling.{
  control, IsSingle, split_empty, cancel_none, Reach-IsSingle,
}

module _ {N : Type 0} (d : JsReal N) where
  -- Nothing is attached or held, and these calls have been made.
  record IsGone (cs : List (Call N)) (s : Effect N) : Type 0 where
    removed : s.is_mounted ≡ false
    held : s.pending ≡ []
    called : s.calls ≡ cs

  changed-IsGone :
      (r h : Bool) (cs : List (Call N)) (s : Effect N)
      → IsGone cs s
      → IsGone cs (visibility_changed d r h s)
  changed-IsGone r h cs s i =
      rw i.removed (record { removed = refl; held = i.held; called = i.called })

  Step-IsGone :
      (r : Bool) (cs : List (Call N)) {s t : Effect N} → Step d r s t → IsGone cs s → IsGone cs t
  unfolding handle_pointer
  Step-IsGone r cs (fire s before after id v p) i =
      absurd (split_empty d id before after (sym p ∙ i.held))
  Step-IsGone r cs (wait s now h) i = record {
    removed = i.removed;
    held = i.held;
    called = i.called;
  }
  Step-IsGone r cs (resized s w h m) i = absurd (cc (m, i.removed))
  Step-IsGone r cs (hide s v) i = changed-IsGone r true cs s i
  Step-IsGone r cs (reveal s v) i = changed-IsGone r false cs s i
  Step-IsGone r cs (retheme s b m) i = absurd (cc (m, i.removed))
  Step-IsGone r cs (moved s x y w h l) i = absurd (cc (rw i.removed at l))
  Step-IsGone r cs (unmount s m) i = absurd (cc (m, i.removed))

  Reach-IsGone :
      (r : Bool) (cs : List (Call N)) {s t : Effect N} → IsGone cs s → Reach d r s t → IsGone cs t
  Reach-IsGone r cs i here = i
  Reach-IsGone r cs i (next reached step) = Step-IsGone r cs step (Reach-IsGone r cs i reached)

  cleanup-IsGone :
      (r : Bool) (s : Effect N)
      → IsSingle r (control s)
      → IsGone (dispose ∷ dispose_scene ∷ s.calls) (cleanup s)
  unfolding cleanup call cancel
  cleanup-IsGone r s i = record { removed = refl; held = cancel_none d s i.at_most; called = refl }

  -- Whenever a scene is removed, whether the page was hidden when it was mounted or not, the removal disposes
  -- of the scene and of the renderer once, and whatever happens then, neither is used again.
  pub cleanup-calls :
      (r is_hidden is_dark : Bool) (w h : ℕ) (time : N) {s t : Effect N}
      → Reach d r (mount d r is_hidden is_dark w h time) s
      → Reach d r (cleanup s) t
      → t.calls ≡ dispose ∷ dispose_scene ∷ s.calls
  cleanup-calls r is_hidden is_dark w h time {s} reached later =
      (Reach-IsGone r (dispose ∷ dispose_scene ∷ s.calls)
        (cleanup-IsGone r s (Reach-IsSingle d r is_hidden is_dark w h time reached)) later).called
