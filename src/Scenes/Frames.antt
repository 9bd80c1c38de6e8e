-- ===== src/Scenes/Frames.antt =====
-- The effect of frontend/src/features/home/hooks/useThreeScene.ts, with the browser's frame requests and
-- the calls that it makes of the scene's controller and of the renderer, the latest first.
pub mod Scheduling
pub mod Timing
pub mod Showing
pub mod Removal
use build_a_computer.Base.{
  ℕ, suc, ◌≡◌, Bool, true, false, not, ◌&&◌, ◌||◌, Option, none, some, List, [], ◌∷◌, ◌++◌,
  if◌then◌else◌, filter, ◌==◌,
}
use build_a_computer.Base.Real.{JsReal}

pub record Tilt (N : Type 0) : Type 0 where
  pub x : N
  pub y : N

pub data Call (N : Type 0) : Type 0 where
  -- `controller.setTheme`, `fit`, `update` and `pose`.
  set_theme : (is_dark : Bool) → Call N
  fit : (width height : ℕ) → Call N
  update : (t dt : N) → Tilt N → Call N
  pose : Call N
  -- `renderer.setSize`, `render` and `dispose`, and `disposeScene`.
  set_size : (width height : ℕ) → Call N
  render : Call N
  dispose_scene : Call N
  dispose : Call N

pub record Effect (N : Type 0) : Type 0 where
  -- The frame requests that the browser holds, and the id of its next one.
  pub pending : List ℕ
  pub fresh : ℕ
  pub raf_id : ℕ
  -- `document.hidden`, the `dark` class of the page, the size of the container, and the time of the page.
  pub is_hidden : Bool
  pub is_dark : Bool
  pub client_width : ℕ
  pub client_height : ℕ
  pub time : N
  -- Whether the observers and listeners are attached.
  pub is_mounted : Bool
  pub pointer : Tilt N
  pub tilt : Tilt N
  pub start : N
  pub last : N
  pub calls : List (Call N)

module _ {N : Type 0} where
  unfoldable pub call : Call N → Effect N → Effect N
  call c s = record s { calls = c ∷ s.calls }

  -- `rafId = requestAnimationFrame(loop)`.
  unfoldable pub request : Effect N → Effect N
  request s = record s { pending = s.fresh ∷ s.pending; raf_id = s.fresh; fresh = suc s.fresh }

  -- `cancelAnimationFrame(rafId)`.
  unfoldable pub cancel : Effect N → Effect N
  cancel s = record s { pending = filter (λ id. not (id == s.raf_id)) s.pending }

  unfoldable pub render_static : Effect N → Effect N
  unfolding call
  render_static s = call render (call pose s)

  unfoldable pub cleanup : Effect N → Effect N
  unfolding call cancel
  cleanup s = call dispose (call dispose_scene (record (cancel s) { is_mounted = false }))

module _ {N : Type 0} (d : JsReal N) where
  abbrev pub zero_of : N
  zero_of = d.dec 0 0

  -- `if (!start) start = now`.
  abbrev pub started : N → N → N
  started start now = if d.is_falsy start then now else start

  -- The seconds since the start, and since the last frame: 0.1 at most, and 0 in a first frame.
  unfoldable pub seconds : N → N → N
  seconds start now = d.div (d.sub now (started start now)) (d.dec 1000 0)

  unfoldable pub delta : N → N → N
  delta last now =
      if d.is_falsy last then zero_of else d.min (d.div (d.sub now last) (d.dec 1000 0)) (d.dec 1 1)

  -- `tilt.x += (pointer.x - tilt.x) * 0.04`, and the same of y.
  unfoldable pub eased : Tilt N → Tilt N → Tilt N
  eased tilt pointer = record {
    x = d.add tilt.x (d.mul (d.sub pointer.x tilt.x) (d.dec 4 2));
    y = d.add tilt.y (d.mul (d.sub pointer.y tilt.y) (d.dec 4 2));
  }

  unfoldable pub loop : N → Effect N → Effect N
  unfolding call request
  loop now s =
      let tilt : Tilt N = eased s.tilt s.pointer in
      let called : Effect N =
        call render (call (update (seconds s.start now) (delta s.last now) tilt) s) in
      request (record called { start = started s.start now; last = now; tilt = tilt })

  -- The clientX and clientY of the event, and the size of the window.
  unfoldable pub handle_pointer : (x y width height : N) → Effect N → Effect N
  handle_pointer x y width height s = record s {
    pointer = record {
      x = d.sub (d.mul (d.div x width) (d.dec 2 0)) (d.dec 1 0);
      y = d.sub (d.mul (d.div y height) (d.dec 2 0)) (d.dec 1 0);
    };
  }

  unfoldable pub handle_visibility : Effect N → Effect N
  unfolding cancel request
  handle_visibility s =
      if not s.is_hidden then request (record (cancel s) { last = zero_of }) else cancel s

  -- What the effect starts from: `controller.setTheme(readIsDark())`, and the variables.
  abbrev pub created :
      (is_hidden is_dark : Bool) (client_width client_height : ℕ) (time : N) → Effect N
  created is_hidden is_dark client_width client_height time =
      let centre : Tilt N = record { x = zero_of; y = zero_of } in
      record {
        pending = [];
        fresh = 1;
        raf_id = 0;
        is_hidden = is_hidden;
        is_dark = is_dark;
        client_width = client_width;
        client_height = client_height;
        time = time;
        is_mounted = true;
        pointer = centre;
        tilt = centre;
        start = zero_of;
        last = zero_of;
        calls = set_theme is_dark ∷ [];
      }

  module _ (reduce_motion : Bool) where
    unfoldable pub resize : Effect N → Effect N
    unfolding call render_static
    resize s =
        let width = s.client_width in
        let height = s.client_height in
        let fitted = call (fit width height) (call (set_size width height) s) in
        if (width == 0) || (height == 0)
        then s
        else if reduce_motion
        then render_static fitted
        else fitted

    -- The callback of `observeTheme`.
    unfoldable pub handle_theme : Effect N → Effect N
    unfolding call render_static
    handle_theme s =
        let themed = call (set_theme s.is_dark) s in
        if reduce_motion then render_static themed else themed

    -- `if (!reduceMotion) { rafId = requestAnimationFrame(loop); ... }`.
    unfoldable pub start_loop : Effect N → Effect N
    unfolding request
    start_loop s = if not reduce_motion then request s else s

    -- The effect in a page of this visibility, theme, size and time.
    unfoldable pub mount :
        (is_hidden is_dark : Bool) (client_width client_height : ℕ) (time : N) → Effect N
    unfolding resize start_loop
    mount is_hidden is_dark client_width client_height time =
        start_loop (resize (created is_hidden is_dark client_width client_height time))

    -- Nothing is set up without a canvas in a container, or without WebGL.
    abbrev pub effect :
        (has_canvas has_webgl : Bool) (is_hidden is_dark : Bool) (client_width client_height : ℕ)
        (time : N)
        → Option (Effect N)
    effect has_canvas has_webgl is_hidden is_dark client_width client_height time =
        if has_canvas && has_webgl
        then some (mount is_hidden is_dark client_width client_height time)
        else none

    -- The listeners of the pointer and of the visibility are attached unless motion is reduced.
    abbrev pub is_listening : Effect N → Bool
    is_listening s = s.is_mounted && not reduce_motion

    abbrev pub visibility_changed : Bool → Effect N → Effect N
    visibility_changed h s =
        if is_listening s
        then handle_visibility (record s { is_hidden = h })
        else record s { is_hidden = h }

    -- What may happen: a frame, which the browser gives to a page that is not hidden, with the time of
    -- the page, the passing of time, a change of the size, of the visibility or of the theme, a movement
    -- of the pointer, and the removal of the component.
    pub data Step : Effect N → Effect N → Type 0 where
      fire :
          (s : Effect N) (before after : List ℕ) (id : ℕ)
          → s.is_hidden ≡ false
          → s.pending ≡ before ++ (id ∷ after)
          → Step s (loop s.time (record s { pending = before ++ after }))
      wait : (s : Effect N) (now : N) → d.le s.time now ≡ true → Step s (record s { time = now })
      resized :
          (s : Effect N) (w h : ℕ)
          → s.is_mounted ≡ true
          → Step s (resize (record s { client_width = w; client_height = h }))
      hide : (s : Effect N) → s.is_hidden ≡ false → Step s (visibility_changed true s)
      reveal : (s : Effect N) → s.is_hidden ≡ true → Step s (visibility_changed false s)
      retheme :
          (s : Effect N) (is_dark : Bool)
          → s.is_mounted ≡ true
          → Step s (handle_theme (record s { is_dark = is_dark }))
      moved :
          (s : Effect N) (x y width height : N)
          → is_listening s ≡ true
          → Step s (handle_pointer x y width height s)
      unmount : (s : Effect N) → s.is_mounted ≡ true → Step s (cleanup s)

    pub data Reach (r : Effect N) : Effect N → Type 0 where
      here : Reach r r
      next : {s t : Effect N} → Reach r s → Step s t → Reach r t
