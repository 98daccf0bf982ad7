-- ===== src/Mcp/Tools/Property.antt =====
-- src/mcp/tools.rs: the schema of one argument, by its kind.
use postblox.Common.{ℕ}
use postblox.Common.Text.{Text, codes}
use postblox.Json.{Value, number, pos_int, array, object, nil, cons, end, member}
use postblox.Json as Json

abbrev text_value : Text → Value
text_value = Json.string

abbrev null_or_text : Value
null_or_text = array (cons (text_value (codes "string")) (cons (text_value (codes "null")) nil))

abbrev pub string : Text → Value
string description = object (
    member (codes "description") (text_value description)
      (member (codes "type") (text_value (codes "string")) end))

abbrev pub nullable_string : Text → Value
nullable_string description =
    object (
      member (codes "description") (text_value description)
        (member (codes "type") null_or_text end))

abbrev formatted : Text → Value → Text → Value
formatted format kind description = object (
    member (codes "description") (text_value description)
      (member (codes "format") (text_value format) (member (codes "type") kind end)))

abbrev pub uuid : Text → Value
uuid = formatted (codes "uuid") (text_value (codes "string"))

abbrev pub nullable_uuid : Text → Value
nullable_uuid = formatted (codes "uuid") null_or_text

abbrev pub nullable_rfc3339 : Text → Value
nullable_rfc3339 = formatted (codes "date-time") null_or_text

abbrev pub boolean : Text → Value
boolean description = object (
    member (codes "description") (text_value description)
      (member (codes "type") (text_value (codes "boolean")) end))

abbrev pub string_array : Text → Value
string_array description = object (
    member (codes "description") (text_value description) (
      member (codes "items") (object (member (codes "type") (text_value (codes "string")) end))
        (member (codes "type") (text_value (codes "array")) end)))

abbrev pub integer : (minimum maximum : ℕ) → Text → Value
integer minimum maximum description = object (
    member (codes "description") (text_value description) (
      member (codes "maximum") (number (pos_int maximum)) (
        member (codes "minimum") (number (pos_int minimum))
          (member (codes "type") (text_value (codes "integer")) end))))
