-- ===== src/Dialogs/Laws.antt =====
-- What the dialogs of Dialogs.antt send.
use mathlib.Core.Path.{subst}
use build_a_computer.Base.{
  ◌≤◌, ◌≡◌, refl, sym, ap, ◌⊎◌, inl, inr, Bool, true, false, Option, none, some, List, [], ◌∷◌,
  ◌++◌, In, All, Bool-cases, any, any_iff, length, arith,
}
use build_a_computer.Base.Strings.{JsString, str_eq, str_eq_iff}
use build_a_computer.Base.Json.{Json, Fields}
use build_a_computer.Base.Number.{JsNumber}
use build_a_computer.Forms.{
  CreateFormValues, is_upper, is_special, password_schema, create_user_schema,
}
use build_a_computer.Hardware.{Values, PayloadValue}
use build_a_computer.Hardware.Dtos.{HardwareKind, request_type}
use build_a_computer.Hardware.Typed.{conforms, payload_conforms}
use build_a_computer.Dialogs.{
  Form, Dialog, shown, pass_on, submit, settle, Step, typed, submitted, settled, Reach, here, next,
  role_values, status_values, CreateUserRequestDto, create_user_form, create_hardware_form,
  edit_hardware_form,
}

module _ {V D : Type 0} (f : Form V D) where
  -- The payload of values that the schema accepts.
  pub IsPassed : D → Type 0
  IsPassed d = (v : V) × (f.schema v ≡ true) × (f.payload v ≡ some d)

  passed :
      (o : Option D) (s : Dialog V D)
      → f.schema s.values ≡ true
      → f.payload s.values ≡ o
      → All IsPassed s.sent
      → All IsPassed (pass_on f o s).sent
  unfolding IsPassed
  passed none s a e h = h
  passed (some d) s a e h = ((s.values, a, e), h)

  submit-IsPassed : (s : Dialog V D) → All IsPassed s.sent → All IsPassed (submit f s).sent
  unfolding submit
  submit-IsPassed s h = elim (Bool-cases (f.schema s.values)) [
    | inl accepted ↦ rw accepted (passed (f.payload s.values) s accepted refl h)
    | inr refused ↦ rw refused h
  ]

  settle-sent :
      (is_success b : Bool) (s : Dialog V D) → f.resets ≡ b → (settle f is_success s).sent ≡ s.sent
  unfolding settle
  settle-sent true true s e = rw e refl
  settle-sent true false s e = rw e refl
  settle-sent false b s e = refl

  Step-IsPassed : {s t : Dialog V D} → Step f s t → All IsPassed s.sent → All IsPassed t.sent
  Step-IsPassed (typed s v) h = h
  Step-IsPassed (submitted s) h = submit-IsPassed s h
  Step-IsPassed (settled s before after d is_success e) h =
      rw (settle-sent is_success f.resets (record s { waiting = before ++ after }) refl) h

  pub Reach-IsPassed : {s : Dialog V D} → Reach f (shown f) s → All IsPassed s.sent
  unfolding shown
  Reach-IsPassed here = tt
  Reach-IsPassed (next r step) = Step-IsPassed step (Reach-IsPassed r)

All-map :
    {A : Type 0} {P Q : A → Type 0} (xs : List A) → ((x : A) → P x → Q x) → All P xs → All Q xs
All-map [] g h = tt
All-map (x ∷ xs) g (h, hs) = (g x h, All-map xs g hs)

-- A user that may be made: a name that fits, an accepted email, a password of eight code units with an
-- upper-case letter and a special sign, and one of the roles.
pub IsUser : (JsString → Bool) → CreateUserRequestDto → Type 0
IsUser is_email d =
    (1 ≤ length d.username)
    × (length d.username ≤ 255)
    × (is_email d.email ≡ true)
    × (8 ≤ length d.password)
    × (any is_upper d.password ≡ true)
    × (any is_special d.password ≡ true)
    × In d.role role_values

In-str_eq : (s : JsString) (xs : List JsString) → any (str_eq s) xs ≡ true → In s xs
In-str_eq s xs h =
    let (x, i, e) = (any_iff (str_eq s) xs).0 h in
    subst (λ y. In y xs) (sym ((str_eq_iff s x).0 e)) i

create_user_schema-IsUser :
    (is_email : JsString → Bool) (v : CreateFormValues)
    → create_user_schema is_email role_values status_values v ≡ true
    → IsUser is_email
        (record { username = v.username; email = v.email; password = v.password; role = v.role })
unfolding create_user_schema password_schema IsUser
create_user_schema-IsUser is_email v h = (
  ground arith,
  ground arith,
  ground arith,
  ground arith,
  ground arith,
  ground arith,
  In-str_eq v.role role_values (ground arith),
)

user_lem :
    (is_email : JsString → Bool) (d : CreateUserRequestDto)
    → IsPassed (create_user_form is_email) d
    → IsUser is_email d
unfolding IsPassed create_user_form
user_lem is_email d (v, a, e) =
    subst (IsUser is_email)
      (ap (λ (o : Option CreateUserRequestDto). elim o [ some x ↦ x | none ↦ d ]) e)
      (create_user_schema-IsUser is_email v a)

-- Whatever is typed into the dialog that makes a user, and whenever the answers arrive: each user that it
-- sends has a name of one to 255 code units, an accepted email, a password of eight code units at least
-- with an upper-case letter and a special sign, and one of the roles.
pub users_sent :
    (is_email : JsString → Bool) (s : Dialog CreateFormValues CreateUserRequestDto)
    → Reach (create_user_form is_email) (shown (create_user_form is_email)) s
    → All (IsUser is_email) s.sent
users_sent is_email s r =
    All-map s.sent (user_lem is_email) (Reach-IsPassed (create_user_form is_email) r)

module _ {N : Type 0} (d : JsNumber N) (to_iso : JsString → Option JsString) where
  created :
      (k : HardwareKind) (p : List (JsString × PayloadValue N))
      → IsPassed (create_hardware_form d to_iso k) p
      → conforms (request_type k) p ≡ true
  unfolding IsPassed create_hardware_form
  created k p (v, a, e) = payload_conforms d to_iso k v p a e

  edited :
      (k : HardwareKind) (print : Json N → JsString) (is_zero : N → Bool) (item : Fields N)
      (p : List (JsString × PayloadValue N))
      → IsPassed (edit_hardware_form d to_iso print is_zero k item) p
      → conforms (request_type k) p ≡ true
  unfolding IsPassed edit_hardware_form
  edited k print is_zero item p (v, a, e) = payload_conforms d to_iso k v p a e

  -- Whatever is typed into the dialogs that make and edit a hardware item, and whenever the answers
  -- arrive: each item that one of them sends is an object of the type that the request of its kind asks
  -- for, with every property, of its type, and no other.
  pub hardware_sent :
      (k : HardwareKind) (print : Json N → JsString) (is_zero : N → Bool) (item : Fields N)
      (form : Form Values (List (JsString × PayloadValue N)))
      (s : Dialog Values (List (JsString × PayloadValue N)))
      → (form ≡ create_hardware_form d to_iso k)
        ⊎ (form ≡ edit_hardware_form d to_iso print is_zero k item)
      → Reach form (shown form) s
      → All (λ p. conforms (request_type k) p ≡ true) s.sent
  hardware_sent k print is_zero item form s h r = elim h [
    | inl e ↦
        All-map s.sent (λ p q. created k p (subst (λ f. IsPassed f p) e q)) (Reach-IsPassed form r)
    | inr e ↦
        All-map s.sent (λ p q. edited k print is_zero item p (subst (λ f. IsPassed f p) e q))
          (Reach-IsPassed form r)
  ]
