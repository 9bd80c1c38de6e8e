-- ===== src/Recovery/Laws.antt =====
-- What the wizard asks the server for, in whatever order answers and timers arrive.
use build_a_computer.Base.{
  ◌≤◌, ◌≡◌, refl, inl, inr, Bool, true, false, List, [], ◌∷◌, arith, length, All, In,
}
use build_a_computer.Base.Strings.{JsString}
use build_a_computer.Forms.{otp_schema, NewPasswordFormValues, new_password_schema, password_schema}
use build_a_computer.Recovery.{
  ResetPasswordRequestDto, Wizard, opened, email_submitted, email_answered, timer_fired,
  otp_submitted, back, password_submitted, password_answered, Step, submit_email, answer_email,
  fire_timer, submit_otp, go_back, submit_password, answer_password, Reach, here, next,
}

-- A request for a new password names an email that the server accepted, a code of at least four code
-- units and a password that the schema accepts.
abbrev pub IsEntitled : List JsString → ResetPasswordRequestDto → Type 0
IsEntitled accepted r =
    In r.email accepted × (4 ≤ length r.otp) × (password_schema r.new_password ≡ true)

pub record IsSound (w : Wizard) : Type 0 where
  pub bounded : w.step ≤ 2
  pub known : 1 ≤ w.step → In w.email w.accepted
  pub coming : 1 ≤ w.timers → In w.email w.accepted
  pub typed : w.step ≡ 2 → 4 ≤ length w.otp
  pub entitled : All (IsEntitled w.accepted) w.resets

IsEntitled-more :
    (e : JsString) (accepted : List JsString) (rs : List ResetPasswordRequestDto)
    → All (IsEntitled accepted) rs
    → All (IsEntitled (e ∷ accepted)) rs
IsEntitled-more e accepted [] h = tt
IsEntitled-more e accepted (r ∷ rs) ((i, o, p), hs) =
    ((inr i, o, p), IsEntitled-more e accepted rs hs)

password_of_form :
    (v : NewPasswordFormValues)
    → new_password_schema v ≡ true
    → password_schema v.new_password ≡ true
unfolding new_password_schema
password_of_form v h = ground arith

module _ (is_email : JsString → Bool) where
  Step-IsSound : {u w : Wizard} → Step is_email u w → IsSound u → IsSound w
  unfolding email_submitted email_answered timer_fired otp_submitted back password_submitted
      password_answered otp_schema
  Step-IsSound (submit_email u e _ _) i = record {
    bounded = i.bounded;
    known = i.known;
    coming = i.coming;
    typed = i.typed;
    entitled = i.entitled;
  }
  Step-IsSound (answer_email u e _ _ true _) i = record {
    bounded = i.bounded;
    known = λ _. inl refl;
    coming = λ _. inl refl;
    typed = i.typed;
    entitled = IsEntitled-more e u.accepted u.resets i.entitled;
  }
  Step-IsSound (answer_email u e _ _ false _) i = record {
    bounded = i.bounded;
    known = i.known;
    coming = i.coming;
    typed = i.typed;
    entitled = i.entitled;
  }
  Step-IsSound (fire_timer u left t) i = record {
    bounded = omega arith;
    known = λ _. i.coming (omega (arith, t));
    coming = λ _. i.coming (omega (arith, t));
    typed = λ h. cc;
    entitled = i.entitled;
  }
  Step-IsSound (submit_otp u o s k) i = record {
    bounded = omega arith;
    known = λ _. i.known (omega (arith, s));
    coming = i.coming;
    typed = λ _. ground arith;
    entitled = i.entitled;
  }
  Step-IsSound (go_back u s) i = record {
    bounded = let b = i.bounded in omega (arith, b);
    known = λ h. i.known s;
    coming = i.coming;
    typed = λ h. let b = i.bounded in absurd (omega (arith, h, b));
    entitled = i.entitled;
  }
  Step-IsSound (submit_password u v s k) i = record {
    bounded = i.bounded;
    known = i.known;
    coming = i.coming;
    typed = i.typed;
    entitled = ((i.known (omega (arith, s)), i.typed s, password_of_form v k), i.entitled);
  }
  Step-IsSound (answer_password u true _) i = record {
    bounded = i.bounded;
    known = i.known;
    coming = i.coming;
    typed = i.typed;
    entitled = i.entitled;
  }
  Step-IsSound (answer_password u false _) i = i

  -- However answers, timers and the user interleave, the wizard shows one of its three forms, goes on
  -- from the first only with an email that the server accepted, and sends only requests that name such
  -- an email, a code of at least four code units and a password that the schema accepts.
  pub Reach-IsSound : (w : Wizard) → Reach is_email opened w → IsSound w
  Reach-IsSound w here = record {
    bounded = omega arith;
    known = λ h. absurd (omega (arith, h));
    coming = λ h. absurd (omega (arith, h));
    typed = λ h. cc;
    entitled = tt;
  }
  Reach-IsSound w (next q s) = Step-IsSound s (Reach-IsSound _ q)

  -- From the first form an email, a code and a password that the schemas accept lead to the end, with
  -- just one request that holds the three, where the server accepts the email and the request.
  pub completes :
      (e o : JsString) (v : NewPasswordFormValues)
      → is_email e ≡ true
      → otp_schema o ≡ true
      → new_password_schema v ≡ true
      → (w : Wizard) × Reach is_email opened w
        × (w.is_done ≡ true)
        × (w.resets ≡ record { email = e; otp = o; new_password = v.new_password } ∷ [])
  unfolding email_submitted email_answered timer_fired otp_submitted password_submitted
      password_answered
  completes e o v h k m =
      let w₁ = email_submitted e opened in
      let w₂ = email_answered e [] true w₁ in
      let w₃ = timer_fired 0 w₂ in
      let w₄ = otp_submitted o w₃ in
      let w₅ = password_submitted v.new_password w₄ in
      (
        password_answered true w₅,
        next
            (next
              (next
                (next
                  (next (next here (submit_email opened e refl h))
                    (answer_email w₁ e [] [] true refl))
                  (fire_timer w₂ 0 refl))
                (submit_otp w₃ o refl k))
              (submit_password w₄ v refl m))
            (answer_password w₅ true (omega arith)),
        refl,
        refl,
      )
