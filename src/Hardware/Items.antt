-- ===== src/Hardware/Items.antt =====
-- The items of a hardware panel in the search and in the edit form:
-- frontend/src/features/hardware/components/hardware-resource-panel.tsx and `valuesFor` of
-- schemas/buildHardwareSchema.ts.
use build_a_computer.Base.{
  Bool, false, not, Option, none, some, List, [], ◌∷◌, if◌then◌else◌, any, filter, take,
}
use build_a_computer.Base.Strings.{JsString, includes}
use build_a_computer.Base.Json.{Json, null, Fields, property, is_falsy}
use build_a_computer.Base.Number.{JsNumber}
use build_a_computer.Hardware.{
  FieldKind, boolean, date, FieldConfig, FieldValue, string, flag, Values, put,
}
use build_a_computer.Hardware.Columns.{string_of}

module _ {N : Type 0} (d : JsNumber N) (print : Json N → JsString) where
  -- `trim` and `lower` are `String.prototype.trim` and `toLowerCase`.
  module _ (trim lower : JsString → JsString) where
    abbrev pub matches_query : JsString → List JsString → Fields N → Bool
    matches_query query columns item =
        any (λ key. includes (lower (string_of d print (property key item))) query) columns

    unfoldable pub filtered_items : List JsString → JsString → List (Fields N) → List (Fields N)
    unfolding includes
    filtered_items columns search items = elim (trim search) [
      | [] ↦ items
      | _ ∷ _ ↦ filter (matches_query (lower (trim search)) columns) items
    ]

  -- `is_zero` tells the numbers 0 and NaN.
  module _ (is_zero : N → Bool) where
    -- `Boolean(value)`.
    abbrev pub is_truthy : Option (Json N) → Bool
    is_truthy none = false
    is_truthy (some v) = not (is_falsy is_zero v)

    -- `value === null || value === undefined ? '' : String(value)`.
    abbrev pub text_or_empty : Option (Json N) → JsString
    text_or_empty none = []
    text_or_empty (some null) = []
    text_or_empty v = string_of d print v

    unfoldable pub value_for : FieldKind → Option (Json N) → FieldValue
    value_for boolean v = flag (is_truthy v)
    value_for date v = if is_truthy v then string (take 10 (string_of d print v)) else string []
    value_for _ v = string (text_or_empty v)

    unfoldable pub values_from : List FieldConfig → Fields N → Values → Values
    unfolding value_for put
    values_from [] item values = values
    values_from (f ∷ fields) item values =
        values_from fields item (put f.name (value_for f.kind (property f.name item)) values)

    unfoldable pub values_for : List FieldConfig → Fields N → Values
    unfolding values_from
    values_for fields item = values_from fields item []
