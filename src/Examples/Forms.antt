-- ===== src/Examples/Forms.antt =====
-- A password and its recovery.
use build_a_computer.Base.{◌≡◌, refl, Bool, true, none, [], ◌∷◌}
use build_a_computer.Base.Strings.{JsString, codes, str_eq}
use build_a_computer.Forms.{
  password_schema, otp_schema, NewPasswordFormValues, new_password_schema,
  CreateBenchmarkFormValues, create_benchmark_schema, positive_fps_string, score_schema,
}
use build_a_computer.Recovery.{
  Wizard, opened, Reach, here, next, submit_email, answer_email, fire_timer, email_submitted,
  email_answered, timer_fired,
}
use build_a_computer.Recovery.Laws.{IsSound, Reach-IsSound, completes}
use build_a_computer.Examples.Numbers.{naturals}

abbrev values : NewPasswordFormValues
values = record { new_password = codes "Secret-1"; confirm_password = codes "Secret-1" }

abbrev run : CreateBenchmarkFormValues
run = record {
  title = codes "run";
  gpu_id = codes "g";
  cpu_id = codes "c";
  ram_id = codes "r";
  game_id = codes "x";
  resolution = codes "1440";
  graphics_quality = codes "high";
  avg_fps = codes "60";
  min_fps = codes "30";
  max_fps = codes "90";
  score = none;
}

run_accepted : create_benchmark_schema naturals run ≡ true
unfolding create_benchmark_schema positive_fps_string score_schema
run_accepted = refl

abbrev anything : JsString → Bool
anything _ = true

abbrev asked : Wizard
asked = email_submitted (codes "a@b.c") opened

abbrev answered : Wizard
answered = email_answered (codes "a@b.c") [] true asked

Reach-IsSound_example : IsSound (timer_fired 0 answered)
unfolding email_submitted email_answered
Reach-IsSound_example = Reach-IsSound anything (timer_fired 0 answered) (
    next
      (next (next here (submit_email opened (codes "a@b.c") refl refl))
        (answer_email asked (codes "a@b.c") [] [] true refl))
      (fire_timer answered 0 refl))

values_accepted : new_password_schema values ≡ true
unfolding new_password_schema password_schema str_eq
values_accepted = refl

code_accepted : otp_schema (codes "1234") ≡ true
unfolding otp_schema
code_accepted = refl

completes_example :
    (w : Wizard) × Reach anything opened w
    × (w.is_done ≡ true)
    × (w.resets
        ≡ record { email = codes "a@b.c"; otp = codes "1234"; new_password = codes "Secret-1" }
          ∷ [])
completes_example =
    completes anything (codes "a@b.c") (codes "1234") values refl code_accepted values_accepted
