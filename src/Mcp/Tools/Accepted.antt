-- ===== src/Mcp/Tools/Accepted.antt =====
-- Which arguments pass the schema of a tool (src/mcp/tools.rs).
use postblox.Common.{
  ℕ, ◌≤◌, ◌<◌, ◌^◌, ◌≡◌, refl, sym, ap, ◌↔◌, ◌⊎◌, inl, inr, Bool, true, false, Option, none, some,
  List, [], ◌∷◌, Result, ok, err, >>=-eq-ok, ◌>>◌, Bool-cases, All, arith, is_some, all, ◌||◌,
  if◌then◌else◌,
}
use postblox.Common.Text.{Text}
use postblox.Json.{
  Value, Members, Elements, null, bool, number, object, array, end, pos_int, neg_int, float,
  is_string, contains_key, elements, members, as_str, as_i64, is_null, is_boolean,
}
use postblox.Json as Json
use postblox.Mcp.Tools.Catalogue.{ToolSpec}
use postblox.Mcp.Tools.{
  FieldKind, string, nullable_string, uuid_string, nullable_uuid_string, nullable_rfc3339,
  string_array, boolean, integer, field_kind, arguments_object, check_required, check_fields,
  validate_field, validate_arguments, check, parsed, in_range, known, validated,
}

abbrev IsText : Value → Type 0
IsText v = (s : Text) × (v ≡ Json.string s)

all-is_string_iff : (vs : List Value) → (all is_string vs ≡ true) ↔ All IsText vs
all-is_string_iff [] = (λ h. tt, λ h. refl)
all-is_string_iff (Json.string s ∷ vs) =
    let (f, g) = all-is_string_iff vs in (λ h. ((s, refl), f h), λ h. g h.1)
all-is_string_iff (null ∷ vs) = (λ h. cc, λ h. cc (h.0.1))
all-is_string_iff (bool b ∷ vs) = (λ h. cc, λ h. cc (h.0.1))
all-is_string_iff (number n ∷ vs) = (λ h. cc, λ h. cc (h.0.1))
all-is_string_iff (array es ∷ vs) = (λ h. cc, λ h. cc (h.0.1))
all-is_string_iff (object ms ∷ vs) = (λ h. cc, λ h. cc (h.0.1))

abbrev Parses : {A : Type 0} → (Text → Option A) → Value → Type 0
Parses {A} parse v = (s : Text) × (v ≡ Json.string s) × (a : A) × (parse s ≡ some a)

some_of_is_some : {A : Type 0} (o : Option A) → is_some o ≡ true → (a : A) × (o ≡ some a)
some_of_is_some none h = cc
some_of_is_some (some a) h = (a, refl)

passed : (b : Bool) (message : Text) → check b message ≡ ok tt → b ≡ true
passed true message h = refl
passed false message h = cc

both {ℓ} :
    {A : Type ℓ} (first : Result Text (Unit {0})) (rest : Result Text A) {a : A}
    → (first >> rest) ≡ ok a
    → (first ≡ ok tt) × (rest ≡ ok a)
both (ok tt) rest h = (refl, h)
both (err e) rest h = cc

known_sound :
    (field : Text) (o : Option FieldKind) (kind : FieldKind)
    → known field o ≡ ok kind
    → o ≡ some kind
known_sound field none kind h = cc
known_sound field (some k) kind h = cc

module _ {A : Type 0} (parse : Text → Option A) (missing bad : Text) where
  parsed_sound : (v : Value) → parsed parse (as_str v) missing bad ≡ ok tt → Parses parse v
  parsed_sound (Json.string s) h =
      let (a, e) = some_of_is_some (parse s) (passed _ bad h) in (s, refl, a, e)
  parsed_sound null h = cc
  parsed_sound (bool b) h = cc
  parsed_sound (number n) h = cc
  parsed_sound (array es) h = cc
  parsed_sound (object ms) h = cc

  parsed_complete : (v : Value) → Parses parse v → parsed parse (as_str v) missing bad ≡ ok tt
  parsed_complete v (s, e, a, k) = rw e (rw k)

in_range_sound :
    (field : Text) (minimum maximum : ℕ) (v : Value)
    → in_range field minimum maximum (as_i64 v) ≡ ok tt
    → (n : ℕ) × (v ≡ number (pos_int n)) × (n < 2 ^ 63) × (minimum ≤ n) × (n ≤ maximum)
in_range_sound field lo hi (number (pos_int n)) h =
    (n, refl, ground arith, ground arith, ground arith)
in_range_sound field lo hi (number (neg_int n)) h = cc
in_range_sound field lo hi (number (float n)) h = cc
in_range_sound field lo hi null h = cc
in_range_sound field lo hi (bool b) h = cc
in_range_sound field lo hi (Json.string s) h = cc
in_range_sound field lo hi (array es) h = cc
in_range_sound field lo hi (object ms) h = cc

in_range_complete :
    (field : Text) (minimum maximum n : ℕ)
    → n < 2 ^ 63
    → minimum ≤ n
    → n ≤ maximum
    → in_range field minimum maximum (as_i64 (number (pos_int n))) ≡ ok tt
in_range_complete field lo hi n h k l = ground arith

module _ {Uuid Time : Type 0} (parse_uuid : Text → Option Uuid)
    (parse_rfc3339 : Text → Option Time) where
  -- The values that a field of this kind takes.
  abbrev pub Accepts : FieldKind → Value → Type 0
  Accepts string v = IsText v
  Accepts nullable_string v = IsText v ⊎ (v ≡ null)
  Accepts uuid_string v = Parses parse_uuid v
  Accepts nullable_uuid_string v = (v ≡ null) ⊎ Parses parse_uuid v
  Accepts nullable_rfc3339 v = (v ≡ null) ⊎ Parses parse_rfc3339 v
  Accepts string_array v = (es : Elements) × (v ≡ array es) × All IsText (elements es)
  Accepts boolean v = (b : Bool) × (v ≡ bool b)
  Accepts (integer minimum maximum) v =
      (n : ℕ) × (v ≡ number (pos_int n)) × (n < 2 ^ 63) × (minimum ≤ n) × (n ≤ maximum)

  string_sound : (v : Value) → is_string v ≡ true → IsText v
  string_sound (Json.string s) h = (s, refl)
  string_sound null h = cc
  string_sound (bool b) h = cc
  string_sound (number n) h = cc
  string_sound (array es) h = cc
  string_sound (object ms) h = cc

  null_of : (v : Value) → is_null v ≡ true → v ≡ null
  null_of null h = refl
  null_of (Json.string s) h = cc
  null_of (bool b) h = cc
  null_of (number n) h = cc
  null_of (array es) h = cc
  null_of (object ms) h = cc

  bool_of : (v : Value) → is_boolean v ≡ true → (b : Bool) × (v ≡ bool b)
  bool_of (bool b) h = (b, refl)
  bool_of null h = cc
  bool_of (Json.string s) h = cc
  bool_of (number n) h = cc
  bool_of (array es) h = cc
  bool_of (object ms) h = cc

  texts_of :
      (field : Text) (v : Value)
      → validate_field parse_uuid parse_rfc3339 field v string_array ≡ ok tt
      → (es : Elements) × (v ≡ array es) × All IsText (elements es)
  unfolding validate_field
  texts_of field (array es) h = (es, refl, (all-is_string_iff (elements es)).0 (passed _ _ h))
  texts_of field null h = cc
  texts_of field (bool b) h = cc
  texts_of field (Json.string s) h = cc
  texts_of field (number n) h = cc
  texts_of field (object ms) h = cc

  nullable_string_of : (v : Value) → (is_string v || is_null v) ≡ true → IsText v ⊎ (v ≡ null)
  nullable_string_of (Json.string s) h = inl (s, refl)
  nullable_string_of null h = inr refl
  nullable_string_of (bool b) h = cc
  nullable_string_of (number n) h = cc
  nullable_string_of (array es) h = cc
  nullable_string_of (object ms) h = cc

  nullable_of :
      {A : Type 0} (parse : Text → Option A) (missing bad : Text) (v : Value)
      → (if is_null v then ok tt else parsed parse (as_str v) missing bad) ≡ ok tt
      → (v ≡ null) ⊎ Parses parse v
  nullable_of parse missing bad v h = elim (Bool-cases (is_null v)) [
    | inl e ↦ inl (null_of v e)
    | inr e ↦ inr (parsed_sound parse missing bad v (rw e at h))
  ]

  validate_field_sound :
      (field : Text) (v : Value) (kind : FieldKind)
      → validate_field parse_uuid parse_rfc3339 field v kind ≡ ok tt
      → Accepts kind v
  unfolding validate_field
  validate_field_sound field v string h = string_sound v (passed _ _ h)
  validate_field_sound field v nullable_string h = nullable_string_of v (passed _ _ h)
  validate_field_sound field v uuid_string h = parsed_sound parse_uuid _ _ v h
  validate_field_sound field v nullable_uuid_string h = nullable_of parse_uuid _ _ v h
  validate_field_sound field v nullable_rfc3339 h = nullable_of parse_rfc3339 _ _ v h
  validate_field_sound field v string_array h = texts_of field v h
  validate_field_sound field v boolean h = bool_of v (passed _ _ h)
  validate_field_sound field v (integer lo hi) h = in_range_sound field lo hi v h

  nullable_complete :
      {A : Type 0} (parse : Text → Option A) (missing bad : Text) (v : Value)
      → (v ≡ null) ⊎ Parses parse v
      → (if is_null v then ok tt else parsed parse (as_str v) missing bad) ≡ ok tt
  nullable_complete parse missing bad v (inl e) = rw e refl
  nullable_complete parse missing bad v (inr (s, e, a, k)) = rw e (rw k)

  validate_field_complete :
      (field : Text) (v : Value) (kind : FieldKind)
      → Accepts kind v
      → validate_field parse_uuid parse_rfc3339 field v kind ≡ ok tt
  unfolding validate_field
  validate_field_complete field v string (s, e) = rw e
  validate_field_complete field v nullable_string (inl (s, e)) = rw e
  validate_field_complete field v nullable_string (inr e) = rw e
  validate_field_complete field v uuid_string h = parsed_complete parse_uuid _ _ v h
  validate_field_complete field v nullable_uuid_string h = nullable_complete parse_uuid _ _ v h
  validate_field_complete field v nullable_rfc3339 h = nullable_complete parse_rfc3339 _ _ v h
  validate_field_complete field v string_array (es, e, h) =
      rw e (rw ((all-is_string_iff (elements es)).1 h))
  validate_field_complete field v boolean (b, e) = rw e
  validate_field_complete field v (integer lo hi) (n, e, h, k, l) =
      rw e (in_range_complete field lo hi n h k l)

  abbrev pub FieldFits : ToolSpec → Text × Value → Type 0
  FieldFits tool (field, v) =
      (kind : FieldKind) × (field_kind tool field ≡ some kind) × Accepts kind v

  check_required_sound :
      (ms : Members) (fields : List Text)
      → check_required ms fields ≡ ok tt
      → All (λ field. contains_key field ms ≡ true) fields
  check_required_sound ms [] h = tt
  check_required_sound ms (f ∷ fields) h = elim (Bool-cases (contains_key f ms)) [
    | inl e ↦ (e, check_required_sound ms fields (rw e at h))
    | inr e ↦ cc (rw e at h)
  ]

  check_required_complete :
      (ms : Members) (fields : List Text)
      → All (λ field. contains_key field ms ≡ true) fields
      → check_required ms fields ≡ ok tt
  check_required_complete ms [] h = refl
  check_required_complete ms (f ∷ fields) h = rw (h.0) (check_required_complete ms fields h.1)

  check_fields_sound :
      (tool : ToolSpec) (fs : List (Text × Value))
      → check_fields parse_uuid parse_rfc3339 tool fs ≡ ok tt
      → All (FieldFits tool) fs
  check_fields_sound tool [] h = tt
  check_fields_sound tool ((f, v) ∷ fs) h =
      let (kind, e, k) = >>=-eq-ok _ _ h in
      let named = known_sound f (field_kind tool f) kind e in
      let (fits, others) = both (validate_field parse_uuid parse_rfc3339 f v kind) _ k in
      ((kind, named, validate_field_sound f v kind fits), check_fields_sound tool fs others)

  check_fields_complete :
      (tool : ToolSpec) (fs : List (Text × Value))
      → All (FieldFits tool) fs
      → check_fields parse_uuid parse_rfc3339 tool fs ≡ ok tt
  check_fields_complete tool [] h = refl
  check_fields_complete tool ((f, v) ∷ fs) ((kind, e, fits), others) =
      rw e (rw (validate_field_complete f v kind fits) (check_fields_complete tool fs others))

  -- What the schema of the tool says of the members of the arguments.
  pub record Valid (tool : ToolSpec) (ms : Members) : Type 0 where
    pub has_required : All (λ field. contains_key field ms ≡ true) tool.required
    pub fields_fit : All (FieldFits tool) (members ms)

  validated_sound :
      (tool : ToolSpec) (o : Option Members) (w : Value)
      → validated parse_uuid parse_rfc3339 tool o ≡ ok w
      → (ms : Members) × (o ≡ some ms) × (w ≡ object ms) × Valid tool ms
  validated_sound tool none w h = cc
  validated_sound tool (some ms) w h =
      let (required, k) = both (check_required ms tool.required) _ h in
      let (fits, l) = both (check_fields parse_uuid parse_rfc3339 tool (members ms)) _ k in
      (
        ms,
        refl,
        cc,
        record {
          has_required = check_required_sound ms tool.required required;
          fields_fit = check_fields_sound tool (members ms) fits;
        },
      )

  -- Arguments pass exactly when they are null or an object whose members include the required
  -- ones and are all known to the tool, each with a value of its kind; what is passed on is that
  -- object, the empty one for null.
  pub validate_arguments_iff :
      (tool : ToolSpec) (arguments w : Value)
      → (validate_arguments parse_uuid parse_rfc3339 tool arguments ≡ ok w) ↔ (
          (ms : Members) × (arguments_object arguments ≡ some ms) × (w ≡ object ms) × Valid tool ms)
  unfolding validate_arguments
  validate_arguments_iff tool v w = (validated_sound tool (arguments_object v) w, back)
    where
      back :
          (ms : Members) × (arguments_object v ≡ some ms) × (w ≡ object ms) × Valid tool ms
          → validated parse_uuid parse_rfc3339 tool (arguments_object v) ≡ ok w
      back (ms, e, k, valid) = rw e (
          rw (check_required_complete ms tool.required valid.has_required)
            (rw (check_fields_complete tool (members ms) valid.fields_fit) (ap ok (sym k))))
