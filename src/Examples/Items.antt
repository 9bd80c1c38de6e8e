-- ===== src/Examples/Items.antt =====
-- A module of memory, typed into the form and edited.
use build_a_computer.Base.{ℕ, ◌≡◌, refl, inl, inr, true, Option, some, List, [], ◌∷◌}
use build_a_computer.Base.Strings.{JsString, codes, str_eq, lookup}
use build_a_computer.Base.Json.{Json, str, num, Fields, field, end, property}
use build_a_computer.Hardware.{
  FieldConfig, string, integer, Values, PayloadValue, words, amount, convert, to_payload,
  payload_from, put, accepts, passes, shape_from,
}
use build_a_computer.Hardware.Laws.{AreDistinct}
use build_a_computer.Hardware.Dtos.{ram, request_type}
use build_a_computer.Hardware.Config.{fields_of}
use build_a_computer.Hardware.Items.{values_for, values_from, value_for}
use build_a_computer.Hardware.Typed.{conforms, payload_conforms}
use build_a_computer.Hardware.Editing.{an_integer, to_payload-values_for}
use build_a_computer.Hardware.Shape.{distinct-AreDistinct}
use build_a_computer.Examples.Numbers.{naturals, is_zero}

abbrev pub iso : JsString → Option JsString
iso s = some s

abbrev pub typed : Values
typed =
    (codes "brand", string (codes "Corsair"))
    ∷ (codes "series", string (codes "Vengeance"))
    ∷ (codes "ddr", string (codes "DDR5"))
    ∷ (codes "memory_amount", string (codes "32"))
    ∷ (codes "frequency_mhz", string (codes "6000"))
    ∷ (codes "avg_price", string (codes "120"))
    ∷ []

abbrev payload : List (JsString × PayloadValue ℕ)
payload =
    (codes "brand", words (codes "Corsair"))
    ∷ (codes "series", words (codes "Vengeance"))
    ∷ (codes "ddr", words (codes "DDR5"))
    ∷ (codes "memory_amount", amount 32)
    ∷ (codes "frequency_mhz", amount 6000)
    ∷ (codes "avg_price", amount 120)
    ∷ []

typed_accepted : accepts naturals (fields_of ram) typed ≡ true
unfolding accepts passes shape_from lookup str_eq
typed_accepted = refl

typed_payload : to_payload naturals iso (fields_of ram) typed ≡ some payload
unfolding to_payload payload_from convert put lookup str_eq
typed_payload = refl

payload_conforms_example : conforms (request_type ram) payload ≡ true
payload_conforms_example =
    payload_conforms naturals iso ram typed payload typed_accepted typed_payload

abbrev item : Fields ℕ
item = field (codes "id") (str (codes "r1")) (
    field (codes "brand") (str (codes "Corsair")) (
      field (codes "series") (str (codes "Vengeance")) (
        field (codes "ddr") (str (codes "DDR5")) (
          field (codes "memory_amount") (num 32)
            (field (codes "frequency_mhz") (num 6000) (field (codes "avg_price") (num 120) end))))))

abbrev print : Json ℕ → JsString
print _ = []

abbrev frequency : FieldConfig
frequency = record {
  name = codes "frequency_mhz";
  label = codes "Frequency (MHz)";
  kind = integer;
  options = [];
  required = true;
}

ram_distinct : AreDistinct (fields_of ram)
unfolding str_eq
ram_distinct = distinct-AreDistinct (fields_of ram) refl

unchanged :
    to_payload naturals iso (fields_of ram) (values_for naturals print is_zero (fields_of ram) item)
    ≡ some payload
unfolding to_payload payload_from convert put lookup str_eq values_for values_from value_for
    property
unchanged = refl

item_frequency : property (codes "frequency_mhz") item ≡ some (num 6000)
unfolding property str_eq
item_frequency = refl

to_payload-values_for_example : lookup (codes "frequency_mhz") payload ≡ some (amount 6000)
to_payload-values_for_example =
    to_payload-values_for naturals print is_zero item iso (fields_of ram) frequency payload
      (num 6000) (amount 6000) ram_distinct (inr (inr (inr (inr (inl refl))))) unchanged
      item_frequency (an_integer 6000 refl)
