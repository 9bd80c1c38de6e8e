-- ===== src/Examples/Dialogs.antt =====
-- Dialogs in use.
use build_a_computer.Base.{ℕ, ◌≡◌, refl, inl, Bool, true, List, [], All}
use build_a_computer.Base.Strings.{JsString, codes}
use build_a_computer.Base.Json.{end}
use build_a_computer.Forms.{CreateFormValues, GameFormValues}
use build_a_computer.Hardware.{Values, PayloadValue}
use build_a_computer.Hardware.Dtos.{ram, request_type}
use build_a_computer.Hardware.Typed.{conforms}
use build_a_computer.Dialogs.{
  Form, Dialog, shown, submit, Reach, here, next, typed, submitted, CreateUserRequestDto,
  create_user_form, create_hardware_form,
}
use build_a_computer.Dialogs.Laws.{IsUser, users_sent, hardware_sent}
use build_a_computer.Examples.Numbers.{naturals, is_zero}
use build_a_computer.Examples.Items
use build_a_computer.Examples.Items.{iso}

abbrev anything : JsString → Bool
anything _ = true

abbrev user_form : Form CreateFormValues CreateUserRequestDto
user_form = create_user_form anything

abbrev ana : CreateFormValues
ana = record {
  username = codes "ana";
  email = codes "ana@b.c";
  password = codes "Secret-42";
  role = codes "common";
}

abbrev with_ana : Dialog CreateFormValues CreateUserRequestDto
with_ana = record (shown user_form) { values = ana }

user_sent : Reach user_form (shown user_form) (submit user_form with_ana)
user_sent = next (next here (typed (shown user_form) ana)) (submitted with_ana)

users_sent_example : All (IsUser anything) (submit user_form with_ana).sent
users_sent_example = users_sent anything (submit user_form with_ana) user_sent

abbrev ram_form : Form Values (List (JsString × PayloadValue ℕ))
ram_form = create_hardware_form naturals iso ram

abbrev with_ram : Dialog Values (List (JsString × PayloadValue ℕ))
with_ram = record (shown ram_form) { values = Items.typed }

ram_sent : Reach ram_form (shown ram_form) (submit ram_form with_ram)
ram_sent = next (next here (typed (shown ram_form) Items.typed)) (submitted with_ram)

hardware_sent_example :
    All (λ p. conforms (request_type ram) p ≡ true) (submit ram_form with_ram).sent
hardware_sent_example =
    hardware_sent naturals iso ram (λ _. []) is_zero end ram_form (submit ram_form with_ram)
      (inl refl) ram_sent

abbrev ring : GameFormValues
ring = record { name = codes "Elden Ring"; necessary_disk = codes "60" }
