-- ===== src/Hardware.antt =====
-- The forms of the hardware resources, which are built from a list of fields:
-- frontend/src/features/hardware/types/fieldConfig.ts and schemas/buildHardwareSchema.ts. `to_iso` is
-- `new Date(s).toISOString()`, where `none` is its RangeError.
pub mod Laws
pub mod Dtos
pub mod Config
pub mod Columns
pub mod Items
pub mod Shape
pub mod Typed
pub mod Editing
use build_a_computer.Base.{
  Bool, true, false, not, ◌&&◌, Option, none, some, List, [], ◌∷◌, if◌then◌else◌, every, or_else,
  leb, length,
}
use build_a_computer.Base.Strings.{JsString, codes, str_eq, lookup}
use build_a_computer.Base.Number.{JsNumber}

pub data FieldKind : Type 0 where
  text number integer boolean select date : FieldKind

pub record FieldConfig : Type 0 where
  pub name : JsString
  pub label : JsString
  pub kind : FieldKind
  pub options : List JsString
  pub required : Bool

-- A value of the form: a string or a Boolean.
pub data FieldValue : Type 0 where
  string : JsString → FieldValue
  flag : Bool → FieldValue

abbrev pub Values : Type 0
Values = List (JsString × FieldValue)

-- `record[key] = value`.
unfoldable pub put : {V : Type 0} → JsString → V → List (JsString × V) → List (JsString × V)
unfolding str_eq
put k v [] = (k, v) ∷ []
put k v ((j, w) ∷ r) = if str_eq j k then (k, v) ∷ r else (j, w) ∷ put k v r

-- `z.boolean()`, a required number, a required string and an optional string.
pub data Check : Type 0 where
  is_boolean is_number is_filled is_optional : Check

abbrev pub check_of : FieldKind → Bool → Check
check_of boolean required = is_boolean
check_of number required = if required then is_number else is_optional
check_of integer required = if required then is_number else is_optional
check_of _ required = if required then is_filled else is_optional

unfoldable pub shape_from : List FieldConfig → List (JsString × Check) → List (JsString × Check)
unfolding put
shape_from [] shape = shape
shape_from (f ∷ fields) shape = shape_from fields (put f.name (check_of f.kind f.required) shape)

unfoldable pub empty_values_from : List FieldConfig → Values → Values
unfolding put
empty_values_from [] values = values
empty_values_from (f ∷ fields) values =
    empty_values_from fields
      (put f.name (elim f.kind [ boolean ↦ flag false | _ ↦ string [] ]) values)

unfoldable pub empty_values_for : List FieldConfig → Values
empty_values_for fields = empty_values_from fields []

-- A value of the payload; `missing` is `undefined`.
pub data PayloadValue (N : Type 0) : Type 0 where
  missing : PayloadValue N
  truth : Bool → PayloadValue N
  amount : N → PayloadValue N
  words : JsString → PayloadValue N

-- `Boolean(value)` and `String(value)`.
abbrev pub to_boolean : Option FieldValue → Bool
to_boolean none = false
to_boolean (some (flag b)) = b
to_boolean (some (string [])) = false
to_boolean (some (string (c ∷ s))) = true

abbrev pub to_text : Option FieldValue → JsString
to_text none = codes "undefined"
to_text (some (flag true)) = codes "true"
to_text (some (flag false)) = codes "false"
to_text (some (string s)) = s

module _ {N : Type 0} (d : JsNumber N) where
  -- `Number(value)`; "undefined" is not a number.
  abbrev pub to_number : Option FieldValue → N
  to_number (some (flag true)) = d.of_ℕ 1
  to_number (some (flag false)) = d.of_ℕ 0
  to_number v = d.of_string (to_text v)

  unfoldable pub passes : Check → Option FieldValue → Bool
  passes is_boolean (some (flag b)) = true
  passes is_number (some (string s)) = leb 1 (length s) && not (d.is_nan (d.of_string s))
  passes is_filled (some (string s)) = leb 1 (length s)
  passes is_optional none = true
  passes is_optional (some (string s)) = true
  passes _ _ = false

  -- The schema of `buildHardwareSchema(fields)` accepts the values.
  unfoldable pub accepts : List FieldConfig → Values → Bool
  unfolding passes shape_from lookup
  accepts fields values =
      every (λ (r : JsString × Check). passes r.1 (lookup r.0 values)) (shape_from fields [])

  module _ (to_iso : JsString → Option JsString) where
    abbrev pub as_date : Option JsString → Option (PayloadValue N)
    as_date none = none
    as_date (some s) = some (words s)

    abbrev pub as_given : Option FieldValue → PayloadValue N
    as_given none = missing
    as_given (some (flag b)) = truth b
    as_given (some (string s)) = words s

    unfoldable pub convert : FieldKind → Option FieldValue → Option (PayloadValue N)
    convert boolean v = some (truth (to_boolean v))
    convert number v = some (amount (to_number v))
    convert integer v = some (amount (d.parse_int (to_text v)))
    convert date v = as_date (to_iso (to_text v))
    convert _ v = some (as_given v)

    unfoldable pub payload_from :
        List FieldConfig
        → Values
        → List (JsString × PayloadValue N)
        → Option (List (JsString × PayloadValue N))
    unfolding put convert lookup
    payload_from [] values payload = some payload
    payload_from (f ∷ fields) values payload = elim (convert f.kind (lookup f.name values)) [
      | none ↦ none
      | some v ↦ payload_from fields values (put f.name v payload)
    ]

    -- `none` is the exception.
    unfoldable pub to_payload :
        List FieldConfig → Values → Option (List (JsString × PayloadValue N))
    unfolding payload_from
    to_payload fields values = payload_from fields values []
