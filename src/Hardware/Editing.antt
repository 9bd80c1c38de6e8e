-- ===== src/Hardware/Editing.antt =====
-- What the edit form of a hardware item sends where nothing is changed.
use mathlib.Core.Path.{subst}
use build_a_computer.Base.{
  ◌≡◌, refl, sym, ap, ◌∙◌, ◌≢◌, inl, inr, Bool, true, false, Option, some, List, [], ◌∷◌,
  if◌then◌else◌, map, In, Bool-cases, take,
}
use build_a_computer.Base.Strings.{JsString, str_eq, str_eq_iff, str_eq_refl, lookup}
use build_a_computer.Base.Json.{Json, bool, num, str, Fields, property}
use build_a_computer.Base.Number.{JsNumber}
use build_a_computer.Hardware.{
  text, number, integer, boolean, select, date, words, truth, amount, FieldKind, FieldConfig,
  FieldValue, Values, put, PayloadValue, convert, to_payload,
}
use build_a_computer.Hardware.Laws.{AreDistinct, lookup-put, to_payload_lem}
use build_a_computer.Hardware.Items.{value_for, values_from, values_for}

module _ {N : Type 0} (d : JsNumber N) (print : Json N → JsString) (is_zero : N → Bool)
    (item : Fields N) where
  abbrev shown : FieldConfig → FieldValue
  shown f = value_for d print is_zero f.kind (property f.name item)

  values_keep :
      (fields : List FieldConfig) (k : JsString) (start : Values)
      → (¬ In k (map (λ g. g.name) fields))
      → lookup k (values_from d print is_zero fields item start) ≡ lookup k start
  unfolding values_from
  values_keep [] k start n = refl
  values_keep (f ∷ fields) k start n =
      values_keep fields k (put f.name (shown f) start) (λ i. n (inr i))
      ∙ lookup-put f.name k (shown f) start
      ∙ other
    where
      other : (if str_eq k f.name then some (shown f) else lookup k start) ≡ lookup k start
      other = elim (Bool-cases (str_eq k f.name)) [
        | inl same ↦ absurd (n (inl ((str_eq_iff k f.name).0 same)))
        | inr diff ↦ rw diff refl
      ]

  values_hold :
      (fields : List FieldConfig) (f : FieldConfig) (start : Values)
      → AreDistinct fields
      → In f fields
      → lookup f.name (values_from d print is_zero fields item start) ≡ some (shown f)
  unfolding values_from
  values_hold [] f start _ i = absurd i
  values_hold (g ∷ fields) f start (n, ns) (inr i) =
      values_hold fields f (put g.name (shown g) start) ns i
  values_hold (g ∷ fields) f start (n, ns) (inl e) =
      subst
        (λ u.
          lookup u.name (values_from d print is_zero fields item (put g.name (shown g) start))
          ≡ some (shown u))
        (sym e)
        (values_keep fields g.name (put g.name (shown g) start) n
          ∙ lookup-put g.name g.name (shown g) start
          ∙ rw (str_eq_refl g.name) refl)

  module _ (to_iso : JsString → Option JsString) where
    -- The value that a field sends for a property of the item: a Boolean and a text as they are, a number
    -- that is read back from its digits, and the day of a date, that is from its first ten code units.
    pub data Keeps : FieldKind → Json N → PayloadValue N → Type 0 where
      a_truth : (b : Bool) → Keeps boolean (bool b) (truth b)
      a_text : (s : JsString) → Keeps text (str s) (words s)
      a_choice : (s : JsString) → Keeps select (str s) (words s)
      a_number : (n : N) → d.of_string (d.to_string n) ≡ n → Keeps number (num n) (amount n)
      an_integer : (n : N) → d.parse_int (d.to_string n) ≡ n → Keeps integer (num n) (amount n)
      a_date :
          (s t : JsString) → s ≢ [] → to_iso (take 10 s) ≡ some t → Keeps date (str s) (words t)

    convert-value_for :
        (k : FieldKind) (v : Json N) (w : PayloadValue N)
        → Keeps k v w
        → convert d to_iso k (some (value_for d print is_zero k (some v))) ≡ some w
    unfolding convert value_for
    convert-value_for _ _ _ (a_truth true) = refl
    convert-value_for _ _ _ (a_truth false) = refl
    convert-value_for _ _ _ (a_text s) = refl
    convert-value_for _ _ _ (a_choice s) = refl
    convert-value_for _ _ _ (a_number n e) = rw e refl
    convert-value_for _ _ _ (an_integer n e) = rw e refl
    convert-value_for _ _ _ (a_date [] t n e) = absurd (n refl)
    convert-value_for _ _ _ (a_date (c ∷ s) t n e) = rw e refl

    -- An item that is edited without a change is sent with its own values, where no two fields share a
    -- name: a Boolean, a text and a choice as they are, a number that its text is read back as, and a
    -- date as the time that its first ten code units name.
    pub to_payload-values_for :
        (fields : List FieldConfig) (f : FieldConfig) (payload : List (JsString × PayloadValue N))
        (v : Json N) (w : PayloadValue N)
        → AreDistinct fields
        → In f fields
        → to_payload d to_iso fields (values_for d print is_zero fields item) ≡ some payload
        → property f.name item ≡ some v
        → Keeps f.kind v w
        → lookup f.name payload ≡ some w
    unfolding values_for
    to_payload-values_for fields f payload v w n i e p k =
        to_payload_lem d to_iso (values_from d print is_zero fields item []) fields f payload n i e
        ∙ ap (convert d to_iso f.kind) (values_hold fields f [] n i)
        ∙ ap (λ u. convert d to_iso f.kind (some (value_for d print is_zero f.kind u))) p
        ∙ convert-value_for f.kind v w k
