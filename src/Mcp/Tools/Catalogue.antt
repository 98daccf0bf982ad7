-- ===== src/Mcp/Tools/Catalogue.antt =====
-- src/mcp/tools.rs: the catalogue of the tools.
use postblox.Common.{Bool, true, false, Option, none, some, List, [], ◌∷◌, ◌++◌, if◌then◌else◌}
use postblox.Common.Text.{Text, codes, text_eq}
use postblox.Daemon.Op.{
  Op, account_list, folder_list, thread_list, message_list_by_folder, message_list_by_thread,
  message_get, search, draft_create, draft_update, draft_delete, message_set_flags, message_send,
  sql_query, sql_schema,
}

pub record ToolSpec : Type 0 where
  pub name : Text
  pub op : Op
  pub description : Text
  pub dangerous : Bool
  pub required : List Text

abbrev pub account_list_tool : ToolSpec
account_list_tool = record {
  name = codes "postblox_account_list";
  op = account_list;
  description = codes "List configured postblox email accounts.";
  dangerous = false;
  required = [];
}

abbrev pub folder_list_tool : ToolSpec
folder_list_tool = record {
  name = codes "postblox_folder_list";
  op = folder_list;
  description = codes "List folders for one account.";
  dangerous = false;
  required = codes "account_id" ∷ [];
}

abbrev pub thread_list_tool : ToolSpec
thread_list_tool = record {
  name = codes "postblox_thread_list";
  op = thread_list;
  description = codes "List recent threads for one account.";
  dangerous = false;
  required = codes "account_id" ∷ [];
}

abbrev pub message_list_by_folder_tool : ToolSpec
message_list_by_folder_tool = record {
  name = codes "postblox_message_list_by_folder";
  op = message_list_by_folder;
  description = codes "List message summary rows in a folder (no text_body/html_body).";
  dangerous = false;
  required = codes "folder_id" ∷ [];
}

abbrev pub message_list_by_thread_tool : ToolSpec
message_list_by_thread_tool = record {
  name = codes "postblox_message_list_by_thread";
  op = message_list_by_thread;
  description = codes "List message summary rows in a thread (no text_body/html_body).";
  dangerous = false;
  required = codes "thread_id" ∷ [];
}

abbrev pub message_get_tool : ToolSpec
message_get_tool = record {
  name = codes "postblox_message_get";
  op = message_get;
  description = codes "Fetch one full message by id, including text_body/html_body.";
  dangerous = false;
  required = codes "id" ∷ [];
}

abbrev pub search_tool : ToolSpec
search_tool = record {
  name = codes "postblox_search";
  op = search;
  description =
      codes "Search local indexed email and return summary rows (no "
      ++ (codes "text_body/html_body) with optional "
          ++ codes "account/folder/thread/date/sender/flag filters.");
  dangerous = false;
  required = codes "q" ∷ [];
}

abbrev pub draft_create_tool : ToolSpec
draft_create_tool = record {
  name = codes "postblox_draft_create";
  op = draft_create;
  description = codes "Create an email draft.";
  dangerous = true;
  required = codes "account_id" ∷ codes "to_addrs" ∷ codes "cc_addrs" ∷ codes "bcc_addrs" ∷ [];
}

abbrev pub draft_update_tool : ToolSpec
draft_update_tool = record {
  name = codes "postblox_draft_update";
  op = draft_update;
  description = codes "Update an email draft.";
  dangerous = true;
  required =
      codes "id"
      ∷ codes "to_addrs"
      ∷ codes "cc_addrs"
      ∷ codes "bcc_addrs"
      ∷ codes "subject"
      ∷ codes "text_body"
      ∷ codes "html_body"
      ∷ [];
}

abbrev pub draft_delete_tool : ToolSpec
draft_delete_tool = record {
  name = codes "postblox_draft_delete";
  op = draft_delete;
  description = codes "Delete an email draft.";
  dangerous = true;
  required = codes "id" ∷ [];
}

abbrev pub message_set_flags_tool : ToolSpec
message_set_flags_tool = record {
  name = codes "postblox_message_set_flags";
  op = message_set_flags;
  description = codes "Replace flags on one message.";
  dangerous = true;
  required = codes "id" ∷ codes "flags" ∷ [];
}

abbrev pub message_send_tool : ToolSpec
message_send_tool = record {
  name = codes "postblox_message_send";
  op = message_send;
  description = codes "Send an existing draft through the account SMTP settings.";
  dangerous = true;
  required = codes "account_id" ∷ codes "draft_id" ∷ [];
}

abbrev pub sql_query_tool : ToolSpec
sql_query_tool = record {
  name = codes "postblox_sql_query";
  op = sql_query;
  description =
      codes "Run a read-only SQL query against the local postblox database. "
      ++ (codes "Only SELECT statements are accepted; DDL and DML are rejected. "
          ++ codes "Returns up to `limit` rows as JSON objects.");
  dangerous = true;
  required = codes "sql" ∷ [];
}

abbrev pub sql_schema_tool : ToolSpec
sql_schema_tool = record {
  name = codes "postblox_sql_schema";
  op = sql_schema;
  description =
      codes "Return CREATE statements for every table, view, index, and "
      ++ (codes "trigger in the postblox database. Use this before issuing ad-hoc "
          ++ codes "queries via postblox_sql_query.");
  dangerous = false;
  required = [];
}

abbrev pub tools : List ToolSpec
tools =
    account_list_tool ∷ folder_list_tool ∷ thread_list_tool ∷ message_list_by_folder_tool
    ∷ message_list_by_thread_tool ∷ message_get_tool ∷ search_tool ∷ draft_create_tool
    ∷ draft_update_tool ∷ draft_delete_tool ∷ message_set_flags_tool ∷ message_send_tool
    ∷ sql_query_tool ∷ sql_schema_tool ∷ []

abbrev pub find_in : Text → List ToolSpec → Option ToolSpec
find_in name [] = none
find_in name (tool ∷ rest) = if text_eq tool.name name then some tool else find_in name rest

unfoldable pub find_tool : Text → Option ToolSpec
find_tool name = find_in name tools
