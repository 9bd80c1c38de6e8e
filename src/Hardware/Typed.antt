-- ===== src/Hardware/Typed.antt =====
-- The payload of a hardware form against the object type that its request asks for.
use mathlib.Core.Path.{subst}
use build_a_computer.Base.{
  ◌≡◌, refl, ap, ◌∙◌, inl, inr, Bool, true, false, ◌&&◌, Option, none, some, List, [], ◌∷◌, arith,
  In, Bool-cases, any, every, any_iff,
}
use build_a_computer.Base.Strings.{JsString, str_eq, str_eq_iff, str_eq_refl, lookup}
use build_a_computer.Base.Number.{JsNumber}
use build_a_computer.Hardware.{
  text, number, integer, boolean, select, date, words, truth, amount, string, flag, FieldKind,
  FieldConfig, FieldValue, Values, PayloadValue, convert, to_payload, is_filled, check_of, passes,
  accepts, as_date, as_given,
}
use build_a_computer.Hardware.Laws.{AreDistinct, to_payload_lem, to_payload_keeps, converted}
use build_a_computer.Hardware.Dtos.{
  PropertyType, string_type, number_type, boolean_type, bytes_type, Property, ObjectType,
  HardwareKind, cpu, gpu, ram, motherboard, psu, ssd, request_type,
}
use build_a_computer.Hardware.Config.{fields_of}
use build_a_computer.Hardware.Shape.{
  every-In, every_of_In, distinct, distinct-AreDistinct, In-any, passes_of_accepts,
}

-- The type of what a field of a kind sends.
abbrev pub type_of : FieldKind → PropertyType
type_of boolean = boolean_type
type_of number = number_type
type_of integer = number_type
type_of _ = string_type

-- A field that always sends a value of its type: a Boolean, or one that must be filled in.
abbrev pub is_certain : FieldConfig → Bool
is_certain f = elim f.kind [ boolean ↦ true | _ ↦ f.required ]

module _ {N : Type 0} where
  -- A value of the payload has a type; no payload holds bytes.
  abbrev pub has_type : PropertyType → Option (PayloadValue N) → Bool
  has_type string_type (some (words _)) = true
  has_type number_type (some (amount _)) = true
  has_type boolean_type (some (truth _)) = true
  has_type _ _ = false

  -- The payload has every property of the type, and no other.
  unfoldable pub conforms : ObjectType → List (JsString × PayloadValue N) → Bool
  unfolding lookup str_eq
  conforms t payload =
      every (λ (p : Property). has_type p.type (lookup p.name payload)) t
      && every (λ (r : JsString × PayloadValue N). any (λ (p : Property). str_eq r.0 p.name) t)
          payload

  lookup_of_In :
      (r : JsString × PayloadValue N) (payload : List (JsString × PayloadValue N))
      → In r payload
      → (v : PayloadValue N) × (lookup r.0 payload ≡ some v)
  unfolding lookup
  lookup_of_In r [] i = absurd i
  lookup_of_In r ((k, v) ∷ payload) (inl e) =
      (v, rw (ap (λ (q : JsString × PayloadValue N). q.0) e, str_eq_refl k) refl)
  lookup_of_In r ((k, v) ∷ payload) (inr i) = elim (Bool-cases (str_eq r.0 k)) [
    | inl same ↦ (v, rw same refl)
    | inr other ↦ let (w, e) = lookup_of_In r payload i in (w, rw other e)
  ]

abbrev same_type : PropertyType → PropertyType → Bool
same_type string_type string_type = true
same_type number_type number_type = true
same_type boolean_type boolean_type = true
same_type bytes_type bytes_type = true
same_type _ _ = false

same_type-eq : (t u : PropertyType) → same_type t u ≡ true → t ≡ u
same_type-eq t u h = ground arith

-- A field serves a property: it has its name and sends its type.
abbrev serves : Property → FieldConfig → Bool
serves p f = str_eq f.name p.name && (is_certain f && same_type (type_of f.kind) p.type)

and_true : (a b : Bool) → (a && b) ≡ true → (a ≡ true) × (b ≡ true)
and_true a b h = ground arith

serves_lem :
    (p : Property) (f : FieldConfig)
    → serves p f ≡ true
    → (f.name ≡ p.name) × (is_certain f ≡ true) × (type_of f.kind ≡ p.type)
serves_lem p f h =
    let (n, rest) = and_true _ _ h in
    let (c, t) = and_true _ _ rest in
    ((str_eq_iff f.name p.name).0 n, c, same_type-eq (type_of f.kind) p.type t)

-- Every property is served by a field, and every field has the name of a property.
abbrev fits : List FieldConfig → ObjectType → Bool
fits fields t =
    every (λ p. any (serves p) fields) t
    && every (λ (f : FieldConfig). any (λ (p : Property). str_eq f.name p.name) t) fields

fits_kind :
    (k : HardwareKind)
    → (distinct (fields_of k) ≡ true) × (fits (fields_of k) (request_type k) ≡ true)
unfolding str_eq
fits_kind cpu = (refl, refl)
fits_kind gpu = (refl, refl)
fits_kind ram = (refl, refl)
fits_kind motherboard = (refl, refl)
fits_kind psu = (refl, refl)
fits_kind ssd = (refl, refl)

module _ {N : Type 0} (d : JsNumber N) (to_iso : JsString → Option JsString) where
  -- A filled field of text is a string.
  given_words :
      (v : Option FieldValue) (w : PayloadValue N)
      → passes d is_filled v ≡ true
      → some (as_given d to_iso v) ≡ some w
      → has_type string_type (some w) ≡ true
  unfolding passes
  given_words none w h e = cc h
  given_words (some (flag b)) w h e = cc h
  given_words (some (string s)) w h e = ground arith

  as_date_words :
      (o : Option JsString) (w : PayloadValue N)
      → as_date d to_iso o ≡ some w
      → has_type string_type (some w) ≡ true
  as_date_words none w h = cc h
  as_date_words (some s) w h = ground arith

  convert_type :
      (k : FieldKind) (required : Bool) (v : Option FieldValue) (w : PayloadValue N)
      → elim k [ boolean ↦ true | _ ↦ required ] ≡ true
      → passes d (check_of k required) v ≡ true
      → convert d to_iso k v ≡ some w
      → has_type (type_of k) (some w) ≡ true
  unfolding convert
  convert_type boolean r v w c h e = ground arith
  convert_type number r v w c h e = ground arith
  convert_type integer r v w c h e = ground arith
  convert_type date r v w c h e = as_date_words _ w e
  convert_type text true v w c h e = given_words v w h e
  convert_type text false v w c h e = cc c
  convert_type select true v w c h e = given_words v w h e
  convert_type select false v w c h e = cc c

  field_type :
      (fields : List FieldConfig) (values : Values) (payload : List (JsString × PayloadValue N))
      (f : FieldConfig)
      → AreDistinct fields
      → accepts d fields values ≡ true
      → to_payload d to_iso fields values ≡ some payload
      → In f fields
      → is_certain f ≡ true
      → has_type (type_of f.kind) (lookup f.name payload) ≡ true
  field_type fields values payload f n a e i c =
      let (w, h) = converted d to_iso values fields f payload i e in
      let at : lookup f.name payload ≡ some w =
        to_payload_lem d to_iso values fields f payload n i e ∙ h in
      rw at (
        convert_type f.kind f.required (lookup f.name values) w c
          (passes_of_accepts d fields values f n i a) h)

  fits-conforms :
      (fields : List FieldConfig) (t : ObjectType) (values : Values)
      (payload : List (JsString × PayloadValue N))
      → AreDistinct fields
      → fits fields t ≡ true
      → accepts d fields values ≡ true
      → to_payload d to_iso fields values ≡ some payload
      → conforms t payload ≡ true
  unfolding conforms
  fits-conforms fields t values payload n h a e =
      let (all_served, all_named) = and_true _ _ h in
      rw
        (
          every_of_In (λ (p : Property). has_type p.type (lookup p.name payload)) t
              (λ p i. typed p (every-In _ t p all_served i)),
          every_of_In
              (λ (r : JsString × PayloadValue N). any (λ (p : Property). str_eq r.0 p.name) t)
              payload (λ r i. named r i all_named),
        )
        refl
    where
      typed :
          (p : Property)
          → any (serves p) fields ≡ true
          → has_type p.type (lookup p.name payload) ≡ true
      typed p s =
          let (f, i, k) = (any_iff (serves p) fields).0 s in
          let (same, sure, type) = serves_lem p f k in
          let found = field_type fields values payload f n a e i sure in
          rw (← same) (subst (λ u. has_type u (lookup f.name payload) ≡ true) type found)

      named :
          (r : JsString × PayloadValue N)
          → In r payload
          → every (λ (f : FieldConfig). any (λ (p : Property). str_eq f.name p.name) t) fields
            ≡ true
          → any (λ (p : Property). str_eq r.0 p.name) t ≡ true
      named r i all_named =
          elim (Bool-cases (any (λ (g : FieldConfig). str_eq r.0 g.name) fields)) [
            | inl known ↦
                let (f, j, same) =
                  (any_iff (λ (g : FieldConfig). str_eq r.0 g.name) fields).0 known in
                rw ((str_eq_iff r.0 f.name).0 same) (
                  every-In (λ (g : FieldConfig). any (λ (p : Property). str_eq g.name p.name) t)
                    fields f all_named j)
            | inr new ↦
                let (v, here) = lookup_of_In r payload i in
                let gone =
                  to_payload_keeps d to_iso values fields r.0 payload
                    (λ j. cc (new, In-any r.0 fields j)) e in
                cc (here, gone)
          ]

  -- For each of the six kinds, the payload of a form that the schema accepts is an object of the type
  -- that the request asks for: it has every property, of its type, and no other.
  pub payload_conforms :
      (k : HardwareKind) (values : Values) (payload : List (JsString × PayloadValue N))
      → accepts d (fields_of k) values ≡ true
      → to_payload d to_iso (fields_of k) values ≡ some payload
      → conforms (request_type k) payload ≡ true
  payload_conforms k values payload a e =
      let (n, f) = fits_kind k in
      fits-conforms (fields_of k) (request_type k) values payload
        (distinct-AreDistinct (fields_of k) n) f a e
