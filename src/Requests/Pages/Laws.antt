-- ===== src/Requests/Pages/Laws.antt =====
-- What the handlers of the list pages do, over many attempts.
use mathlib.Core.List.{append-nil, append_assoc}
use build_a_computer.Base.{
  ◌≡◌, ◌⊎◌, inl, inr, refl, ◌∙◌, sym, ap, Bool, Option, List, [], ◌∷◌, ◌++◌,
}
use build_a_computer.Api.{ApiError, ApiResult, ok, failed}
use build_a_computer.Requests.{begin, settle, settle_change}
use build_a_computer.Requests.Hooks.{run_fetch, run_change}
use build_a_computer.Requests.Pages.{
  Toast, ListPage, Change, create, update, remove, hook, Texts, refetch, handle,
}
use build_a_computer.Requests.Pages.Attempts.{
  Attempt, Outcome, outcome_of, outcomes, fetched_or, last_error, toast_for, told, attempt, session,
}

result-cases :
    {N R S : Type 0} (r : ApiResult N R × S)
    → ((x : R) × (t : S) × (r ≡ (ok x, t))) ⊎ ((e : ApiError N) × (t : S) × (r ≡ (failed e, t)))
result-cases (ok x, t) = inl (x, t, refl)
result-cases (failed e, t) = inr (e, t, refl)

each : (P : Change → Type 0) → P create → P update → P remove → (c : Change) → P c
each P x y z create = x
each P x y z update = y
each P x y z remove = z

-- The errors in the cells of the page are those of the latest attempts.
abbrev AreKept :
    {N A : Type 0} → (Change → Option (ApiError N)) → List (Outcome N A) → ListPage N A → Type 0
AreKept initial past p = (c : Change) → (hook p c).error ≡ last_error initial past c

module _ {N A S T : Type 0} (is_zero : N → Bool) (texts : Change → Texts) where
  -- What one attempt does, from its answer.
  IsAttempt : Attempt N A S T → ListPage N A → S → Type 0
  IsAttempt a p s =
      let (o, t) = outcome_of a (a.call s) in
      let (q, u) = attempt is_zero texts a p s in
      (u ≡ t)
      × (q.toasts
          ≡ p.toasts ++ toast_for is_zero (texts o.change) ((hook p o.change).error) o.error ∷ [])
      × (q.items.value ≡ fetched_or p.items.value o.fetched)
      × ((c : Change) → (hook q c).error ≡ last_error (λ k. (hook p k).error) (o ∷ []) c)

  change_lem :
      (c : Change) (call : S → ApiResult N T × S) (list : S → ApiResult N (List A) × S)
      → (p : ListPage N A) (s : S) → IsAttempt (record { change = c; call = call; list = list }) p s
  unfolding IsAttempt attempt handle refetch run_fetch run_change settle settle_change begin
  change_lem create call list p s = elim (result-cases (call s)) [
    | inl (x, t, e) ↦ elim (result-cases (list t)) [
      | inl (xs, u, k) ↦ rw (e, k) (refl, refl, refl, each _ refl refl refl)
      | inr (b, u, k) ↦ rw (e, k) (refl, refl, refl, each _ refl refl refl)
    ]
    | inr (b, t, e) ↦ rw e (refl, refl, refl, each _ refl refl refl)
  ]
  change_lem update call list p s = elim (result-cases (call s)) [
    | inl (x, t, e) ↦ elim (result-cases (list t)) [
      | inl (xs, u, k) ↦ rw (e, k) (refl, refl, refl, each _ refl refl refl)
      | inr (b, u, k) ↦ rw (e, k) (refl, refl, refl, each _ refl refl refl)
    ]
    | inr (b, t, e) ↦ rw e (refl, refl, refl, each _ refl refl refl)
  ]
  change_lem remove call list p s = elim (result-cases (call s)) [
    | inl (x, t, e) ↦ elim (result-cases (list t)) [
      | inl (xs, u, k) ↦ rw (e, k) (refl, refl, refl, each _ refl refl refl)
      | inr (b, u, k) ↦ rw (e, k) (refl, refl, refl, each _ refl refl refl)
    ]
    | inr (b, t, e) ↦ rw e (refl, refl, refl, each _ refl refl refl)
  ]

  attempt_lem : (a : Attempt N A S T) (p : ListPage N A) (s : S) → IsAttempt a p s
  attempt_lem a = change_lem a.change a.call a.list

  attempt-AreKept :
      (initial : Change → Option (ApiError N)) (past : List (Outcome N A)) (a : Attempt N A S T)
      → (p : ListPage N A) (s : S) → AreKept initial past p
      → AreKept initial ((outcome_of a (a.call s)).0 ∷ past) ((attempt is_zero texts a p s).0)
  unfolding IsAttempt
  attempt-AreKept initial past a p s h c = rw (attempt_lem a p s).3 (rw (h c) refl)

  session-told :
      (initial : Change → Option (ApiError N)) (past : List (Outcome N A))
      → (attempts : List (Attempt N A S T)) (p : ListPage N A) (s : S) → AreKept initial past p
      → (session is_zero texts attempts p s).0.toasts
        ≡ p.toasts ++ told is_zero texts initial past (outcomes attempts s).0
  unfolding session IsAttempt
  session-told initial past [] p s h = sym (append-nil p.toasts)
  session-told initial past (a ∷ others) p s h =
      let (world, toasts, _, _) = attempt_lem a p s in
      let (o, t) = outcome_of a (a.call s) in
      let (q, u) = attempt is_zero texts a p s in
      let ih = session-told initial (o ∷ past) others q u (attempt-AreKept initial past a p s h) in
      let more : S → List (Toast N) =
        λ v. told is_zero texts initial (o ∷ past) (outcomes others v).0 in
      let first : Option (ApiError N) → List (Toast N) =
        λ e. toast_for is_zero (texts o.change) e o.error ∷ [] in
      ih
      ∙ ap (λ v. q.toasts ++ more v) world
      ∙ ap (λ l. l ++ more t) (toasts ∙ ap (λ e. p.toasts ++ first e) (h o.change))
      ∙ append_assoc p.toasts (first (last_error initial past o.change)) (more t)

  -- Over any attempts at a list page, one after another: the toasts that are added are, in order, one for each
  -- attempt. That of an accepted one announces it; that of a refused one describes the error that the attempt
  -- before it at the same change was answered with, whatever its own answer is, and has the fallback text
  -- where that attempt was accepted. Before the first attempt at a change, it is the error in its cell.
  pub session-toasts :
      (attempts : List (Attempt N A S T)) (p : ListPage N A) (s : S)
      → (session is_zero texts attempts p s).0.toasts
        ≡ p.toasts ++ told is_zero texts (λ c. (hook p c).error) [] (outcomes attempts s).0
  session-toasts attempts p s = session-told (λ c. (hook p c).error) [] attempts p s (λ c. refl)
