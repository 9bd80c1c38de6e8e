-- ===== src/Examples/Hardware.antt =====
-- A form with a number and a switch.
use build_a_computer.Base.{ℕ, ◌≡◌, refl, inl, inr, true, false, Option, some, List, [], ◌∷◌, In}
use build_a_computer.Base.Strings.{JsString, codes, lookup, str_eq}
use build_a_computer.Hardware.{
  FieldConfig, integer, boolean, string, flag, Values, PayloadValue, truth, amount, convert,
  to_payload, payload_from, put,
}
use build_a_computer.Hardware.Laws.{AreDistinct}
use build_a_computer.Examples.Numbers.{naturals}

abbrev cores : FieldConfig
cores = record {
  name = codes "cores";
  label = codes "Cores";
  kind = integer;
  options = [];
  required = true;
}

abbrev oc : FieldConfig
oc = record {
  name = codes "oc";
  label = codes "Overclocking";
  kind = boolean;
  options = [];
  required = false;
}

abbrev fields : List FieldConfig
fields = cores ∷ oc ∷ []

abbrev typed : Values
typed = (codes "cores", string (codes "8")) ∷ (codes "oc", flag true) ∷ []

abbrev iso : JsString → Option JsString
iso s = some s

abbrev payload : List (JsString × PayloadValue ℕ)
payload = (codes "cores", amount 8) ∷ (codes "oc", truth true) ∷ []

built : to_payload naturals iso fields typed ≡ some payload
unfolding to_payload payload_from convert put lookup str_eq
built = refl

apart : AreDistinct fields
apart = (λ h. not_there h, ((λ h. h), tt))
  where
    not_there : In (codes "cores") (codes "oc" ∷ []) → ⊥
    not_there (inl e) = cc e
    not_there (inr i) = i
