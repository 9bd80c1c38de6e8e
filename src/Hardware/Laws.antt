-- ===== src/Hardware/Laws.antt =====
-- What a payload holds.
use mathlib.Core.Option.{some-injective}
use mathlib.Core.Path.{subst}
use build_a_computer.Base.{
  ◌≡◌, refl, sym, ap, ◌∙◌, inl, inr, Option, none, some, List, [], ◌∷◌, arith, if◌then◌else◌, map,
  In, Bool-cases,
}
use build_a_computer.Base.Strings.{JsString, str_eq, str_eq_iff, str_eq_refl, lookup}
use build_a_computer.Base.Number.{JsNumber}
use build_a_computer.Hardware.{
  text, number, integer, boolean, select, date, words, truth, amount, to_text, to_boolean,
  to_number, as_given, FieldKind, FieldConfig, FieldValue, Values, put, PayloadValue, convert,
  payload_from, to_payload,
}

pub lookup-put :
    {V : Type 0} (k j : JsString) (v : V) (r : List (JsString × V))
    → lookup j (put k v r) ≡ (if str_eq j k then some v else lookup j r)
unfolding lookup put
lookup-put k j v [] = refl
lookup-put k j v ((i, w) ∷ r) =
    ground
      (arith, str_eq_iff k j, str_eq_iff i k, str_eq_iff j k, str_eq_iff j i, lookup-put k j v r)

-- No two fields of one name.
abbrev pub AreDistinct : List FieldConfig → Type 0
AreDistinct [] = Unit
AreDistinct (f ∷ fields) = (¬ In f.name (map (λ g. g.name) fields)) × AreDistinct fields

In-name :
    (f : FieldConfig) (fields : List FieldConfig)
    → In f fields
    → In f.name (map (λ g. g.name) fields)
In-name f [] i = absurd i
In-name f (g ∷ fields) (inl e) = inl (ap (λ (h : FieldConfig). h.name) e)
In-name f (g ∷ fields) (inr i) = inr (In-name f fields i)

module _ {N : Type 0} (d : JsNumber N) (to_iso : JsString → Option JsString) (values : Values) where
  abbrev value : FieldConfig → Option (PayloadValue N)
  value f = convert d to_iso f.kind (lookup f.name values)

  abbrev Payload : Type 0
  Payload = List (JsString × PayloadValue N)

  -- Splitting on the first field.
  first_field :
      (f : FieldConfig) (fields : List FieldConfig) (start result : Payload)
      → payload_from d to_iso (f ∷ fields) values start ≡ some result
      → (v : PayloadValue N) × (value f ≡ some v)
        × (payload_from d to_iso fields values (put f.name v start) ≡ some result)
  unfolding payload_from
  first_field f fields start result e = cases (value f) refl
    where
      cases :
          (o : Option (PayloadValue N))
          → value f ≡ o
          → (v : PayloadValue N) × (value f ≡ some v)
            × (payload_from d to_iso fields values (put f.name v start) ≡ some result)
      cases none h = cc (rw (payload_from, h) at e)
      cases (some v) h = (v, h, rw (payload_from, h) at e)

  payload_keeps :
      (fields : List FieldConfig) (k : JsString) (start result : Payload)
      → (¬ In k (map (λ g. g.name) fields))
      → payload_from d to_iso fields values start ≡ some result
      → lookup k result ≡ lookup k start
  unfolding payload_from
  payload_keeps [] k start result n e = ap (lookup k) (sym (some-injective _ _ e))
  payload_keeps (f ∷ fields) k start result n e =
      let (v, h, rest) = first_field f fields start result e in
      payload_keeps fields k (put f.name v start) result (λ i. n (inr i)) rest
      ∙ lookup-put f.name k v start
      ∙ other v
    where
      other :
          (v : PayloadValue N)
          → (if str_eq k f.name then some v else lookup k start) ≡ lookup k start
      other v = elim (Bool-cases (str_eq k f.name)) [
        | inl same ↦ absurd (n (inl ((str_eq_iff k f.name).0 same)))
        | inr diff ↦ rw diff refl
      ]

  payload_from_holds :
      (fields : List FieldConfig) (f : FieldConfig) (start result : Payload)
      → AreDistinct fields
      → In f fields
      → payload_from d to_iso fields values start ≡ some result
      → lookup f.name result ≡ value f
  payload_from_holds [] f start result _ i e = absurd i
  payload_from_holds (g ∷ fields) f start result (n, ns) (inr j) e =
      let (v, h, rest) = first_field g fields start result e in
      payload_from_holds fields f (put g.name v start) result ns j rest
  payload_from_holds (g ∷ fields) f start result (n, ns) (inl same) e =
      let (v, h, rest) = first_field g fields start result e in
      let own : lookup g.name result ≡ value g =
        payload_keeps fields g.name (put g.name v start) result n rest
        ∙ lookup-put g.name g.name v start
        ∙ rw (str_eq_refl g.name) (sym h) in
      subst (λ u. lookup u.name result ≡ value u) (sym same) own

  -- Where no two fields share a name and a payload is built, it holds for each field the value of
  -- the form, converted by the kind of the field.
  pub to_payload_lem :
      (fields : List FieldConfig) (f : FieldConfig) (payload : Payload)
      → AreDistinct fields
      → In f fields
      → to_payload d to_iso fields values ≡ some payload
      → lookup f.name payload ≡ convert d to_iso f.kind (lookup f.name values)
  unfolding to_payload
  to_payload_lem fields f payload distinct i e = payload_from_holds fields f [] payload distinct i e

  -- A key that no field has stays free.
  pub to_payload_keeps :
      (fields : List FieldConfig) (k : JsString) (payload : Payload)
      → (¬ In k (map (λ g. g.name) fields))
      → to_payload d to_iso fields values ≡ some payload
      → lookup k payload ≡ none
  unfolding to_payload lookup
  to_payload_keeps fields k payload n e = payload_keeps fields k [] payload n e

  converted_from :
      (fields : List FieldConfig) (f : FieldConfig) (start payload : Payload)
      → In f fields
      → payload_from d to_iso fields values start ≡ some payload
      → (v : PayloadValue N) × (value f ≡ some v)
  converted_from [] f start payload i e = absurd i
  converted_from (g ∷ fields) f start payload (inl same) e =
      let (v, h, _) = first_field g fields start payload e in (v, rw same h)
  converted_from (g ∷ fields) f start payload (inr i) e =
      let (v, _, rest) = first_field g fields start payload e in
      converted_from fields f (put g.name v start) payload i rest

  -- Where a payload is built, each field was converted.
  pub converted :
      (fields : List FieldConfig) (f : FieldConfig) (payload : Payload)
      → In f fields
      → to_payload d to_iso fields values ≡ some payload
      → (v : PayloadValue N) × (convert d to_iso f.kind (lookup f.name values) ≡ some v)
  unfolding to_payload
  converted fields f payload i e = converted_from fields f [] payload i e

  IsoText : Option FieldValue → Type 0
  IsoText v = (s : JsString) × (to_iso (to_text v) ≡ some s)

  convert_total :
      (k : FieldKind) (v : Option FieldValue)
      → (k ≡ date → IsoText v)
      → (w : PayloadValue N) × (convert d to_iso k v ≡ some w)
  unfolding convert IsoText
  convert_total date v h = let (s, e) = h refl in (words s, rw e refl)
  convert_total boolean v h = (truth (to_boolean v), refl)
  convert_total number v h = (amount (to_number d v), refl)
  convert_total integer v h = (amount (d.parse_int (to_text v)), refl)
  convert_total text v h = (as_given d to_iso v, refl)
  convert_total select v h = (as_given d to_iso v, refl)

  payload_from_total :
      (fields : List FieldConfig) (start : Payload)
      → ((f : FieldConfig) → In f fields → f.kind ≡ date → IsoText (lookup f.name values))
      → (payload : Payload) × (payload_from d to_iso fields values start ≡ some payload)
  unfolding payload_from
  payload_from_total [] start h = (start, refl)
  payload_from_total (f ∷ fields) start h =
      let (v, e) = convert_total f.kind (lookup f.name values) (h f (inl refl)) in
      let (payload, e') = payload_from_total fields (put f.name v start) (λ g i. h g (inr i)) in
      (payload, rw (payload_from, e) e')

  -- A payload is built where each date field of the form holds a date.
  to_payload_total :
      (fields : List FieldConfig)
      → ((f : FieldConfig)
          → In f fields
          → f.kind ≡ date
          → (s : JsString) × (to_iso (to_text (lookup f.name values)) ≡ some s))
      → (payload : Payload) × (to_payload d to_iso fields values ≡ some payload)
  unfolding to_payload IsoText
  to_payload_total fields h = payload_from_total fields [] h
