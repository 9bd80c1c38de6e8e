-- ===== src/Dialogs.antt =====
-- The dialogs with a form: create-user-modal.tsx and update-user-modal.tsx of
-- frontend/src/features/users/components, create-hardware-modal.tsx and edit-hardware-modal.tsx of
-- features/hardware/components. What `onSubmit` makes of the values is sent by `onConfirm`, whose answer is a
-- later step; `sent` keeps what was passed to it. A payload that is `none` is an exception.
pub mod Laws
pub mod Images
use build_a_computer.Base.{
  Bool, true, false, Option, none, some, List, [], ◌∷◌, ◌++◌, if◌then◌else◌, ◌≡◌,
}
use build_a_computer.Base.Strings.{JsString, codes}
use build_a_computer.Base.Json.{Json, Fields}
use build_a_computer.Base.Number.{JsNumber}
use build_a_computer.Forms.{
  CreateFormValues, UpdateFormValues, create_user_schema, update_user_schema,
}
use build_a_computer.Hardware.{Values, PayloadValue, accepts, to_payload, empty_values_for}
use build_a_computer.Hardware.Dtos.{HardwareKind}
use build_a_computer.Hardware.Config.{fields_of}
use build_a_computer.Hardware.Items.{values_for}

-- The form of a dialog: its schema, `onSubmit` up to `onConfirm`, the values that it starts with, and
-- whether a success resets it.
pub record Form (V D : Type 0) : Type 0 where
  pub schema : V → Bool
  pub payload : V → Option D
  pub defaults : V
  pub resets : Bool

pub record Dialog (V D : Type 0) : Type 0 where
  pub values : V
  pub waiting : List D
  pub sent : List D

module _ {V D : Type 0} (f : Form V D) where
  unfoldable pub shown : Dialog V D
  shown = record { values = f.defaults; waiting = []; sent = [] }

  abbrev pub pass_on : Option D → Dialog V D → Dialog V D
  pass_on none s = s
  pass_on (some d) s = record s { waiting = d ∷ s.waiting; sent = d ∷ s.sent }

  -- `handleSubmit(onSubmit)` up to the `await`.
  unfoldable pub submit : Dialog V D → Dialog V D
  submit s = let done = pass_on (f.payload s.values) s in if f.schema s.values then done else s

  -- What follows it.
  unfoldable pub settle : Bool → Dialog V D → Dialog V D
  settle true s = if f.resets then record s { values = f.defaults } else s
  settle false s = s

  pub data Step : Dialog V D → Dialog V D → Type 0 where
    typed : (s : Dialog V D) (v : V) → Step s (record s { values = v })
    submitted : (s : Dialog V D) → Step s (submit s)
    settled :
        (s : Dialog V D) (before after : List D) (d : D) (is_success : Bool)
        → s.waiting ≡ before ++ (d ∷ after)
        → Step s (settle is_success (record s { waiting = before ++ after }))

  pub data Reach (o : Dialog V D) : Dialog V D → Type 0 where
    here : Reach o o
    next : {s t : Dialog V D} → Reach o s → Step s t → Reach o t

abbrev pub role_values : List JsString
role_values = codes "common" ∷ codes "supervisor" ∷ []

abbrev pub status_values : List JsString
status_values = codes "active" ∷ codes "inactive" ∷ codes "banned" ∷ []

pub record CreateUserRequestDto : Type 0 where
  pub username : JsString
  pub email : JsString
  pub password : JsString
  pub role : JsString

pub record UpdateUserRequestDto : Type 0 where
  pub username : Option JsString
  pub email : Option JsString
  pub password : Option JsString
  pub role : Option JsString
  pub status : Option JsString

pub record UserResponseDto : Type 0 where
  pub id : JsString
  pub username : JsString
  pub email : JsString
  pub password : JsString
  pub role : JsString
  pub status : JsString

module _ (is_email : JsString → Bool) where
  unfoldable pub create_user_form : Form CreateFormValues CreateUserRequestDto
  create_user_form = record {
    schema = create_user_schema is_email role_values status_values;
    payload = λ values. some (record {
      username = values.username;
      email = values.email;
      password = values.password;
      role = values.role;
    });
    defaults = record { username = []; email = []; password = []; role = codes "common" };
    resets = true;
  }

  unfoldable pub update_user_form : UserResponseDto → Form UpdateFormValues UpdateUserRequestDto
  update_user_form user = record {
    schema = update_user_schema is_email role_values status_values;
    payload = λ values. some (record {
      username = some values.username;
      email = some values.email;
      password = none;
      role = some values.role;
      status = some values.status;
    });
    defaults = record {
      username = user.username;
      email = user.email;
      role = user.role;
      status = user.status;
    };
    resets = false;
  }

module _ {N : Type 0} (d : JsNumber N) (to_iso : JsString → Option JsString) where
  unfoldable pub create_hardware_form :
      HardwareKind → Form Values (List (JsString × PayloadValue N))
  create_hardware_form k = record {
    schema = accepts d (fields_of k);
    payload = to_payload d to_iso (fields_of k);
    defaults = empty_values_for (fields_of k);
    resets = true;
  }

  unfoldable pub edit_hardware_form :
      (Json N → JsString)
      → (N → Bool)
      → HardwareKind
      → Fields N
      → Form Values (List (JsString × PayloadValue N))
  edit_hardware_form print is_zero k item = record {
    schema = accepts d (fields_of k);
    payload = to_payload d to_iso (fields_of k);
    defaults = values_for d print is_zero (fields_of k) item;
    resets = false;
  }
