-- ===== src/Requests/Traces.antt =====
-- Overlapping calls of one fetching hook, as interleavings of their steps.
use build_a_computer.Base.{ℕ, suc, ◌≤◌, ◌≡◌, refl, true, false, none, List, [], ◌∷◌, arith}
use build_a_computer.Api.{ApiResult, ok, failed}
use build_a_computer.Requests.{HookState, idle, begin, settle}

-- A hook with the number of its calls that wait for an answer.
pub record Running (N A : Type 0) : Type 0 where
  pub cells : HookState N A
  pub waiting : ℕ

pub data Step {N A : Type 0} : Running N A → Running N A → Type 0 where
  start : (r : Running N A) → Step r (record { cells = begin r.cells; waiting = suc r.waiting })
  finish :
      (r : Running N A) (n : ℕ) (result : ApiResult N A)
      → r.waiting ≡ suc n
      → Step r (record { cells = settle result r.cells; waiting = n })

pub data Reach {N A : Type 0} (r : Running N A) : Running N A → Type 0 where
  here : Reach r r
  next : {s t : Running N A} → Reach r s → Step s t → Reach r t

module _ {N A : Type 0} where
  -- What the pages rely on: nothing loads unless a call waits, and what loads shows no error.
  pub record IsSettled (r : Running N A) : Type 0 where
    pub quiet : r.waiting ≡ 0 → r.cells.is_loading ≡ false
    pub clean : r.cells.is_loading ≡ true → r.cells.error ≡ none

  Step-IsSettled : {r s : Running N A} → Step r s → IsSettled r → IsSettled s
  unfolding begin settle
  Step-IsSettled (start r) i = ground arith
  Step-IsSettled (finish r n (ok a) e) i = ground arith
  Step-IsSettled (finish r n (failed x) e) i = ground arith

  -- However the calls of a hook overlap, it is not loading when none of them waits, and while it is
  -- loading it shows no error.
  pub Reach-IsSettled :
      (a : A) (r : Running N A) → Reach (record { cells = idle a; waiting = 0 }) r → IsSettled r
  Reach-IsSettled a r here = record { quiet = λ _. refl; clean = λ h. cc }
  Reach-IsSettled a r (next q s) = Step-IsSettled s (Reach-IsSettled a _ q)

-- What the browser does to one hook: calls begin, and answers arrive.
pub data Event (N A : Type 0) : Type 0 where
  began : Event N A
  settled : ApiResult N A → Event N A

module _ {N A : Type 0} where
  unfoldable pub replay : HookState N A → List (Event N A) → HookState N A
  replay h [] = h
  replay h (began ∷ es) = replay (begin h) es
  replay h (settled result ∷ es) = replay (settle result h) es

  -- The last list that arrived, or the one before.
  abbrev pub last_value : A → List (Event N A) → A
  last_value a [] = a
  last_value a (settled (ok b) ∷ es) = last_value b es
  last_value a (_ ∷ es) = last_value a es

  -- Whatever the order of the calls, the list that is shown is the one that arrived last; a
  -- failure keeps it.
  value-replay :
      (h : HookState N A) (es : List (Event N A)) → (replay h es).value ≡ last_value h.value es
  unfolding replay begin settle
  value-replay h [] = refl
  value-replay h (began ∷ es) = value-replay (begin h) es
  value-replay h (settled (ok b) ∷ es) = value-replay (settle (ok b) h) es
  value-replay h (settled (failed e) ∷ es) = value-replay (settle (failed e) h) es

  -- Once one of several overlapping calls is answered, the hook is not loading while another waits.
  pub finish_early :
      (r s : Running N A)
      → 2 ≤ r.waiting
      → r.waiting ≡ suc s.waiting
      → Step r s
      → (1 ≤ s.waiting) × (s.cells.is_loading ≡ false)
  unfolding begin settle
  finish_early r s h k (start _) = ground arith
  finish_early r s h k (finish _ n (ok a) e) = ground arith
  finish_early r s h k (finish _ n (failed x) e) = ground arith
