-- ===== src/Recovery.antt =====
-- The recovery of a password in three steps:
-- frontend/src/features/authentication/components/forgot-password/forgot-password-steps.tsx. Requests
-- that wait for an answer and timers that wait to fire are part of the state, with a record of what
-- the server accepted and of what was sent to it.
pub mod Laws
use build_a_computer.Base.{
  ℕ, zero, suc, ◌-◌, ◌≤◌, ◌≡◌, Bool, true, false, List, [], ◌∷◌, ◌++◌, length,
}
use build_a_computer.Base.Strings.{JsString}
use build_a_computer.Forms.{otp_schema, NewPasswordFormValues, new_password_schema}

pub record ResetPasswordRequestDto : Type 0 where
  pub email : JsString
  pub otp : JsString
  pub new_password : JsString

pub record Wizard : Type 0 where
  pub step : ℕ
  pub email : JsString
  pub otp : JsString
  -- The emails of requests without an answer yet, and the timers of `setStep(1)`.
  pub waiting : List JsString
  pub timers : ℕ
  -- The emails that the server accepted, and the requests for a new password.
  pub accepted : List JsString
  pub resets : List ResetPasswordRequestDto
  pub is_done : Bool

abbrev pub opened : Wizard
opened = record {
  step = 0;
  email = [];
  otp = [];
  waiting = [];
  timers = 0;
  accepted = [];
  resets = [];
  is_done = false;
}

-- `handleEmailSubmit` up to its `await`, and behind it with `isSuccess`.
unfoldable pub email_submitted : JsString → Wizard → Wizard
email_submitted e w = record w { waiting = e ∷ w.waiting }

unfoldable pub email_answered : JsString → List JsString → Bool → Wizard → Wizard
email_answered e rest true w = record w {
  waiting = rest;
  email = e;
  timers = suc w.timers;
  accepted = e ∷ w.accepted;
}
email_answered e rest false w = record w { waiting = rest }

-- The callback of `setTimeout`.
unfoldable pub timer_fired : ℕ → Wizard → Wizard
timer_fired left w = record w { step = 1; timers = left }

unfoldable pub otp_submitted : JsString → Wizard → Wizard
otp_submitted o w = record w { otp = o; step = 2 }

-- `onBack` of the second and the third form.
unfoldable pub back : Wizard → Wizard
back w = record w { step = w.step - 1 }

-- `handlePasswordSubmit`, which leaves the page where `isSuccess`.
unfoldable pub password_submitted : JsString → Wizard → Wizard
password_submitted p w = record w {
  resets = record { email = w.email; otp = w.otp; new_password = p } ∷ w.resets;
}

unfoldable pub password_answered : Bool → Wizard → Wizard
password_answered true w = record w { is_done = true }
password_answered false w = w

-- What the user, the server and the clock may do: a form is there at its step only and submits what
-- its schema accepts.
pub data Step (is_email : JsString → Bool) : Wizard → Wizard → Type 0 where
  submit_email :
      (w : Wizard) (e : JsString)
      → w.step ≡ 0
      → is_email e ≡ true
      → Step is_email w (email_submitted e w)
  answer_email :
      (w : Wizard) (e : JsString) (before after : List JsString) (is_success : Bool)
      → w.waiting ≡ before ++ (e ∷ after)
      → Step is_email w (email_answered e (before ++ after) is_success w)
  fire_timer : (w : Wizard) (left : ℕ) → w.timers ≡ suc left → Step is_email w (timer_fired left w)
  submit_otp :
      (w : Wizard) (o : JsString)
      → w.step ≡ 1
      → otp_schema o ≡ true
      → Step is_email w (otp_submitted o w)
  go_back : (w : Wizard) → 1 ≤ w.step → Step is_email w (back w)
  submit_password :
      (w : Wizard) (v : NewPasswordFormValues)
      → w.step ≡ 2
      → new_password_schema v ≡ true
      → Step is_email w (password_submitted v.new_password w)
  answer_password :
      (w : Wizard) (is_success : Bool)
      → 1 ≤ length w.resets
      → Step is_email w (password_answered is_success w)

pub data Reach (is_email : JsString → Bool) (w : Wizard) : Wizard → Type 0 where
  here : Reach is_email w w
  next : {u v : Wizard} → Reach is_email w u → Step is_email u v → Reach is_email w v
