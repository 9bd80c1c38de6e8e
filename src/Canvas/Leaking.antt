-- ===== src/Canvas/Leaking.antt =====
-- The frame requests of a driver that is mounted in a document that is hidden.
use build_a_computer.Base.{ℕ, zero, suc, ◌≡◌, refl, true, false, [], ◌∷◌}
use build_a_computer.Canvas.Scheduler.{
  Loop, request, cancel, resize, draw_frame, loop, mount, handle_visibility, cleanup,
  visibility_changed, fire, reveal, unmount, Reach, here, next,
}

-- The driver that was mounted while the document was hidden, and removed when it had been shown.
abbrev pub removed : Loop
removed = cleanup false (visibility_changed false false (mount false true))

abbrev held : ℕ → ℕ
held zero = 1
held (suc n) = suc (suc (suc n))

-- The same driver n frames later.
abbrev running : ℕ → Loop
running n = record {
  pending = held n ∷ [];
  fresh = suc (suc (suc n));
  raf_id = suc (suc n);
  is_hidden = false;
  is_listening = false;
  setups = 1;
  frames = n;
}

removed-Reach : Reach false (mount false true) removed
unfolding mount request resize draw_frame handle_visibility
removed-Reach =
    next (next here (reveal (mount false true) refl))
      (unmount (visibility_changed false false (mount false true)) refl)

running-Reach : (n : ℕ) → Reach false removed (running n)
unfolding mount request resize draw_frame handle_visibility cleanup cancel loop
running-Reach zero = here
running-Reach (suc n) = next (running-Reach n) (fire (running n) [] [] (held n) refl refl)

-- A driver that is mounted while the document is hidden, and is removed after the document was shown, is
-- not stopped: whatever n is, it can draw n more frames after its removal, since showing the document asks
-- for a second frame and the removal cancels only that one.
pub leaks :
    (n : ℕ)
    → Reach false (mount false true) removed
      × ((s : Loop) × (Reach false removed s × ((s.is_listening ≡ false) × (s.frames ≡ n))))
leaks n = (removed-Reach, (running n, (running-Reach n, (refl, refl))))
