-- ===== src/Requests/Pages/Attempts.antt =====
-- A list page in use: one attempt to change the list after another, each run to its end before the next. The
-- handler of an attempt is that of the last render, so that the error that it holds is the one in the cell of
-- its hook when the attempt begins.
use build_a_computer.Base.{Bool, true, false, Option, none, some, List, [], ◌∷◌, if◌then◌else◌}
use build_a_computer.Api.{ApiError, ApiResult, ok, failed}
use build_a_computer.Requests.Pages.{
  Toast, success, danger, ListPage, Change, create, update, remove, hook, Texts, error_text, handle,
}

-- A change, and the calls that its handler makes.
pub record Attempt (N A S T : Type 0) : Type 0 where
  pub change : Change
  pub call : S → ApiResult N T × S
  pub list : S → ApiResult N (List A) × S

-- What the server has answered to an attempt: the error, and the list where it was fetched afterwards.
pub record Outcome (N A : Type 0) : Type 0 where
  pub change : Change
  pub error : Option (ApiError N)
  pub fetched : Option (List A)

abbrev pub is_same : Change → Change → Bool
is_same create create = true
is_same update update = true
is_same remove remove = true
is_same _ _ = false

abbrev given : {N A : Type 0} → ApiResult N (List A) → Option (List A)
given (ok xs) = some xs
given (failed _) = none

abbrev pub fetched_or : {A : Type 0} → List A → Option (List A) → List A
fetched_or xs none = xs
fetched_or xs (some ys) = ys

-- The toast after an answer, from the error that was answered before it.
abbrev pub toast_for :
    {N : Type 0} → (N → Bool) → Texts → (earlier answer : Option (ApiError N)) → Toast N
toast_for is_zero texts earlier none = success texts.done
toast_for is_zero texts earlier (some _) =
    danger texts.trouble (error_text is_zero earlier texts.fallback)

module _ {N A S T : Type 0} where
  abbrev pub outcome_of : Attempt N A S T → ApiResult N T × S → Outcome N A × S
  outcome_of a (ok x, t) =
      (record { change = a.change; error = none; fetched = given ((a.list t).0) }, (a.list t).1)
  outcome_of a (failed e, t) = (record { change = a.change; error = some e; fetched = none }, t)

  -- The answers to the attempts, from what the server is at first, and what it is afterwards.
  abbrev pub outcomes : List (Attempt N A S T) → S → List (Outcome N A) × S
  outcomes [] s = ([], s)
  outcomes (a ∷ others) s =
      let (o, t) = outcome_of a (a.call s) in let (os, u) = outcomes others t in (o ∷ os, u)

module _ {N A : Type 0} where
  -- The error of the latest attempt at a change, of those that are listed with the latest first.
  abbrev pub last_error :
      (Change → Option (ApiError N)) → List (Outcome N A) → Change → Option (ApiError N)
  last_error initial [] c = initial c
  last_error initial (o ∷ past) c =
      if is_same o.change c then o.error else last_error initial past c

  -- The list that was fetched last.
  abbrev pub last_list : List A → List (Outcome N A) → List A
  last_list xs [] = xs
  last_list xs (o ∷ os) = last_list (fetched_or xs o.fetched) os

  module _ (is_zero : N → Bool) (texts : Change → Texts) where
    -- The toasts of the attempts: a refused one describes the answer to the attempt before it at the same
    -- change.
    abbrev pub told :
        (Change → Option (ApiError N))
        → (past : List (Outcome N A)) → List (Outcome N A)
        → List (Toast N)
    told initial past [] = []
    told initial past (o ∷ os) =
        toast_for is_zero (texts o.change) (last_error initial past o.change) o.error
        ∷ told initial (o ∷ past) os

module _ {N A S T : Type 0} (is_zero : N → Bool) (texts : Change → Texts) where
  -- The page after one attempt and after several.
  unfoldable pub attempt : Attempt N A S T → ListPage N A → S → ListPage N A × S
  unfolding handle
  attempt a p s =
      let (q, t, _) =
        handle is_zero a.change (texts a.change) ((hook p a.change).error) a.call a.list p s in
      (q, t)

  unfoldable pub session : List (Attempt N A S T) → ListPage N A → S → ListPage N A × S
  unfolding attempt
  session [] p s = (p, s)
  session (a ∷ others) p s = let (q, t) = attempt a p s in session others q t
