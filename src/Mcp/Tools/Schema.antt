-- ===== src/Mcp/Tools/Schema.antt =====
-- src/mcp/tools.rs: the schemas that the bridge advertises.
use postblox.Common.{false, List, [], ◌∷◌, map, if◌then◌else◌}
use postblox.Common.Text.{Text, codes, text_eq}
use postblox.Json.{
  Value, Elements, Members, bool, string, array, object, nil, cons, end, member, insert,
}
use postblox.Mcp.Tools.Catalogue.{ToolSpec, tools}
use postblox.Mcp.Tools.Property as Property
use postblox.Mcp.Tools.{i64_max, search_max_rows, max_rows}

abbrev pub properties : Text → List (Text × Value)
properties tool =
    if text_eq tool (codes "postblox_account_list")
    then []
    else if text_eq tool (codes "postblox_folder_list")
    then (codes "account_id", Property.uuid (codes "Account id.")) ∷ []
    else if text_eq tool (codes "postblox_thread_list")
    then (codes "account_id", Property.uuid (codes "Account id."))
      ∷ (codes "limit", Property.integer 1 500 (codes "Maximum rows to return."))
      ∷ (codes "offset", Property.integer 0 i64_max (codes "Rows to skip."))
      ∷ []
    else if text_eq tool (codes "postblox_message_list_by_folder")
    then (codes "folder_id", Property.uuid (codes "Folder id."))
      ∷ (codes "limit", Property.integer 1 500 (codes "Maximum rows to return."))
      ∷ (codes "offset", Property.integer 0 i64_max (codes "Rows to skip."))
      ∷ []
    else if text_eq tool (codes "postblox_message_list_by_thread")
    then (codes "thread_id", Property.uuid (codes "Thread id.")) ∷ []
    else if text_eq tool (codes "postblox_message_get")
    then (codes "id", Property.uuid (codes "Message id.")) ∷ []
    else if text_eq tool (codes "postblox_search")
    then (codes "q", Property.string (codes "Search query."))
      ∷ (codes "account_id", Property.nullable_uuid (codes "Restrict to one account."))
      ∷ (codes "folder_id", Property.nullable_uuid (codes "Restrict to one folder."))
      ∷ (codes "thread_id", Property.nullable_uuid (codes "Restrict to one thread."))
      ∷ (codes "date_from", Property.nullable_rfc3339 (codes "Earliest internal date (inclusive)."))
      ∷ (codes "date_to", Property.nullable_rfc3339 (codes "Latest internal date (inclusive)."))
      ∷ (codes "from_addr", Property.nullable_string (codes "Substring match against the sender."))
      ∷ (
        codes "to_addr",
        Property.nullable_string (codes "Substring match against the recipients."),
      )
      ∷ (codes "has_attachments", Property.boolean (codes "Filter by presence of attachments."))
      ∷ (codes "unread", Property.boolean (codes "Filter by read state (true = unread)."))
      ∷ (codes "limit", Property.integer 1 search_max_rows (codes "Maximum rows to return."))
      ∷ (codes "offset", Property.integer 0 i64_max (codes "Rows to skip."))
      ∷ []
    else if text_eq tool (codes "postblox_draft_create")
    then (codes "account_id", Property.uuid (codes "Account id."))
      ∷ (
        codes "in_reply_to_msg",
        Property.nullable_uuid (codes "Message id this draft replies to."),
      )
      ∷ (codes "to_addrs", Property.string_array (codes "To recipients."))
      ∷ (codes "cc_addrs", Property.string_array (codes "Cc recipients."))
      ∷ (codes "bcc_addrs", Property.string_array (codes "Bcc recipients."))
      ∷ (codes "subject", Property.nullable_string (codes "Draft subject."))
      ∷ (codes "text_body", Property.nullable_string (codes "Plain text body."))
      ∷ (codes "html_body", Property.nullable_string (codes "HTML body."))
      ∷ []
    else if text_eq tool (codes "postblox_draft_update")
    then (codes "id", Property.uuid (codes "Draft id."))
      ∷ (codes "to_addrs", Property.string_array (codes "To recipients."))
      ∷ (codes "cc_addrs", Property.string_array (codes "Cc recipients."))
      ∷ (codes "bcc_addrs", Property.string_array (codes "Bcc recipients."))
      ∷ (codes "subject", Property.nullable_string (codes "Draft subject."))
      ∷ (codes "text_body", Property.nullable_string (codes "Plain text body."))
      ∷ (codes "html_body", Property.nullable_string (codes "HTML body."))
      ∷ []
    else if text_eq tool (codes "postblox_draft_delete")
    then (codes "id", Property.uuid (codes "Draft id.")) ∷ []
    else if text_eq tool (codes "postblox_message_set_flags")
    then (codes "id", Property.uuid (codes "Message id."))
      ∷ (codes "flags", Property.string_array (codes "Complete replacement flag list."))
      ∷ []
    else if text_eq tool (codes "postblox_message_send")
    then (codes "account_id", Property.uuid (codes "Account id."))
      ∷ (codes "draft_id", Property.uuid (codes "Draft id."))
      ∷ []
    else if text_eq tool (codes "postblox_sql_query")
    then (codes "sql", Property.string (codes "Read-only SQL statement to execute."))
      ∷ (
        codes "limit",
        Property.integer 1 max_rows
            (codes "Maximum rows to return; omitted limits use the daemon default."),
      )
      ∷ []
    else if text_eq tool (codes "postblox_sql_schema")
    then []
    else []

-- `fields`, which collects into an ordered map
abbrev fields : List (Text × Value) → Members → Members
fields [] ms = ms
fields ((name, schema) ∷ rest) ms = fields rest (insert name schema ms)

abbrev texts : List Text → Elements
texts [] = nil
texts (t ∷ rest) = cons (string t) (texts rest)

unfoldable pub input_schema : ToolSpec → Value
input_schema tool = object (
    member (codes "additionalProperties") (bool false) (
      member (codes "properties") (object (fields (properties tool.name) end)) (
        member (codes "required") (array (texts tool.required))
          (member (codes "type") (string (codes "object")) end))))

abbrev tool_json : ToolSpec → Value
tool_json tool = object (
    member (codes "description") (string tool.description) (
      member (codes "inputSchema") (input_schema tool)
        (member (codes "name") (string tool.name) end)))

abbrev values : List Value → Elements
values [] = nil
values (v ∷ rest) = cons v (values rest)

unfoldable pub list_tools : Value
list_tools = object (member (codes "tools") (array (values (map tool_json tools))) end)
