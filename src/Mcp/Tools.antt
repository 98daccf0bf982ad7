-- ===== src/Mcp/Tools.antt =====
-- src/mcp/tools.rs: what arguments a tool takes. The parsers of identifiers and of timestamps are
-- parameters.
pub mod Catalogue
pub mod Accepted
pub mod Property
pub mod Schema
use Prim.Native.String.{String}
use postblox.Common.{
  ℕ, zero, suc, ◌+◌, ◌-◌, ◌/◌, ◌%◌, ◌^◌, Bool, true, false, ◌&&◌, ◌||◌, Option, none, some, List,
  [], ◌∷◌, ◌++◌, all, ltb, is_some, Result, ok, err, ◌>>=◌, ◌>>◌, if◌then◌else◌, ℤ, pos, negsuc,
}
use postblox.Common.Text.{Text, codes, text_eq, decimal}
use postblox.Json.{
  Value, Members, end, null, object, as_str, as_array, as_i64, is_string, is_null, is_boolean,
  contains_key, elements, members,
}
use postblox.Mcp.Tools.Catalogue.{ToolSpec}

pub data FieldKind : Type 0 where
  string nullable_string uuid_string nullable_uuid_string nullable_rfc3339 string_array boolean :
      FieldKind
  integer : (minimum maximum : ℕ) → FieldKind

abbrev pub search_max_rows : ℕ
search_max_rows = 200

abbrev pub max_rows : ℕ
max_rows = 1000

abbrev pub i64_max : ℕ
i64_max = 2 ^ 63 - 1

-- One of the pairs of a match arm is the tool and the field.
abbrev pub one_of : (tool field : Text) → List (String × String) → Bool
one_of tool field [] = false
one_of tool field ((t, f) ∷ rest) =
    (text_eq field (codes f) && text_eq tool (codes t)) || one_of tool field rest

unfoldable pub field_kind : ToolSpec → Text → Option FieldKind
field_kind tool field =
    if one_of tool.name field (
      ("postblox_folder_list", "account_id")
      ∷ ("postblox_thread_list", "account_id")
      ∷ ("postblox_message_list_by_folder", "folder_id")
      ∷ ("postblox_message_list_by_thread", "thread_id")
      ∷ ("postblox_message_get", "id")
      ∷ ("postblox_draft_create", "account_id")
      ∷ ("postblox_draft_update", "id")
      ∷ ("postblox_draft_delete", "id")
      ∷ ("postblox_message_set_flags", "id")
      ∷ ("postblox_message_send", "account_id")
      ∷ ("postblox_message_send", "draft_id")
      ∷ [])
    then some (uuid_string)
    else if one_of tool.name field (("postblox_draft_create", "in_reply_to_msg") ∷ [])
    then some (nullable_uuid_string)
    else if one_of tool.name field (("postblox_search", "q") ∷ [])
    then some (string)
    else if one_of tool.name field (
        ("postblox_search", "account_id")
        ∷ ("postblox_search", "folder_id")
        ∷ ("postblox_search", "thread_id")
        ∷ [])
    then some (nullable_uuid_string)
    else if one_of tool.name field
        (("postblox_search", "date_from") ∷ ("postblox_search", "date_to") ∷ [])
    then some (nullable_rfc3339)
    else if one_of tool.name field
        (("postblox_search", "from_addr") ∷ ("postblox_search", "to_addr") ∷ [])
    then some (nullable_string)
    else if one_of tool.name field
        (("postblox_search", "has_attachments") ∷ ("postblox_search", "unread") ∷ [])
    then some (boolean)
    else if one_of tool.name field (
        ("postblox_draft_create", "to_addrs")
        ∷ ("postblox_draft_create", "cc_addrs")
        ∷ ("postblox_draft_create", "bcc_addrs")
        ∷ ("postblox_draft_update", "to_addrs")
        ∷ ("postblox_draft_update", "cc_addrs")
        ∷ ("postblox_draft_update", "bcc_addrs")
        ∷ ("postblox_message_set_flags", "flags")
        ∷ [])
    then some (string_array)
    else if one_of tool.name field (
        ("postblox_draft_create", "subject")
        ∷ ("postblox_draft_create", "text_body")
        ∷ ("postblox_draft_create", "html_body")
        ∷ ("postblox_draft_update", "subject")
        ∷ ("postblox_draft_update", "text_body")
        ∷ ("postblox_draft_update", "html_body")
        ∷ [])
    then some (nullable_string)
    else if one_of tool.name field
        (("postblox_thread_list", "limit") ∷ ("postblox_message_list_by_folder", "limit") ∷ [])
    then some (integer 1 500)
    else if one_of tool.name field (("postblox_search", "limit") ∷ [])
    then some (integer 1 search_max_rows)
    else if one_of tool.name field (
        ("postblox_thread_list", "offset")
        ∷ ("postblox_message_list_by_folder", "offset")
        ∷ ("postblox_search", "offset")
        ∷ [])
    then some (integer 0 i64_max)
    else if one_of tool.name field (("postblox_sql_query", "sql") ∷ [])
    then some (string)
    else if one_of tool.name field (("postblox_sql_query", "limit") ∷ [])
    then some (integer 1 max_rows)
    else none

abbrev pub must_be : Text → String → Text
must_be field what = field ++ codes what

abbrev pub check : Bool → Text → Result Text (Unit {0})
check true message = ok tt
check false message = err message

-- `value.as_str().ok_or_else(...)?`, then a parser whose result is dropped
abbrev pub parsed :
    {A : Type 0} → (Text → Option A) → Option Text → (missing bad : Text) → Result Text (Unit {0})
parsed parse none missing bad = err missing
parsed parse (some s) missing bad = check (is_some (parse s)) bad

abbrev pub out_of_range : (minimum maximum : ℕ) → ℤ → Bool
out_of_range minimum maximum (pos n) = ltb n minimum || ltb maximum n
out_of_range minimum maximum (negsuc n) = true

abbrev pub in_range : Text → (minimum maximum : ℕ) → Option ℤ → Result Text (Unit {0})
in_range field minimum maximum none = err (must_be field " must be an integer")
in_range field minimum maximum (some n) =
    if out_of_range minimum maximum n
    then err (
        field
        ++ (codes " must be between " ++ (decimal minimum ++ (codes " and " ++ decimal maximum))))
    else ok tt

abbrev pub arguments_object : Value → Option Members
arguments_object null = some end
arguments_object (object ms) = some ms
arguments_object _ = none

abbrev pub missing_argument : Text → Text
missing_argument field = codes "missing required argument '" ++ (field ++ codes "'")

abbrev unexpected_argument : Text → Text
unexpected_argument field = codes "unexpected argument '" ++ (field ++ codes "'")

abbrev pub check_required : Members → List Text → Result Text (Unit {0})
check_required ms [] = ok tt
check_required ms (field ∷ rest) =
    if contains_key field ms then check_required ms rest else err (missing_argument field)

abbrev pub known : Text → Option FieldKind → Result Text FieldKind
known field none = err (unexpected_argument field)
known field (some kind) = ok kind

module _ {Uuid Time : Type 0} (parse_uuid : Text → Option Uuid)
    (parse_rfc3339 : Text → Option Time) where
  unfoldable pub validate_field : Text → Value → FieldKind → Result Text (Unit {0})
  validate_field field value string = check (is_string value) (must_be field " must be a string")
  validate_field field value nullable_string =
      check (is_string value || is_null value) (must_be field " must be a string or null")
  validate_field field value uuid_string =
      parsed parse_uuid (as_str value) (must_be field " must be a string")
        (must_be field " must be a uuid string")
  validate_field field value nullable_uuid_string =
      if is_null value
      then ok tt
      else parsed parse_uuid (as_str value) (must_be field " must be a string or null")
          (must_be field " must be a uuid string or null")
  validate_field field value nullable_rfc3339 =
      if is_null value
      then ok tt
      else parsed parse_rfc3339 (as_str value) (must_be field " must be an rfc3339 string or null")
          (must_be field " must be an rfc3339 string or null")
  validate_field field value string_array = elim (as_array value) [
    | none ↦ err (must_be field " must be an array of strings")
    | some values ↦
        check (all is_string (elements values)) (must_be field " must be an array of strings")
  ]
  validate_field field value boolean = check (is_boolean value) (must_be field " must be a boolean")
  validate_field field value (integer minimum maximum) =
      in_range field minimum maximum (as_i64 value)

  abbrev pub check_fields : ToolSpec → List (Text × Value) → Result Text (Unit {0})
  check_fields tool [] = ok tt
  check_fields tool ((field, value) ∷ rest) =
      let others = check_fields tool rest in
      known field (field_kind tool field) >>= λ kind. validate_field field value kind >> others

  abbrev pub validated : ToolSpec → Option Members → Result Text Value
  validated tool none = err (codes "arguments must be an object")
  validated tool (some ms) =
      check_required ms tool.required >> (check_fields tool (members ms) >> ok (object ms))

  unfoldable pub validate_arguments : ToolSpec → Value → Result Text Value
  validate_arguments tool arguments = validated tool (arguments_object arguments)
