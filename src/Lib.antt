-- ===== src/Lib.antt =====
-- A verification library for postblox, a local mail client: a daemon that keeps IMAP accounts in a
-- SQLite store, a terminal client, and a gateway for tools (MCP).
--
-- The parts and how they meet. The IMAP client (src/imap/client.rs) answers a question "what is in
-- this folder from this UID on" with one window of at most 500 UIDs. The reconciler
-- (src/sync/reconciler.rs) asks from its stored high-water mark, wipes the folder where
-- UIDVALIDITY has changed, and drains window after window into the store (src/db/*.rs); each new
-- message is parsed, tied to a thread (crates/postblox-mail/src/threading.rs), inserted, and
-- announced on the hub. The gateway decides with gates (src/mcp/gates.rs) which tool calls need
-- approval. A worker for each folder (src/sync/worker.rs) runs the reconciler again and again; the
-- manager (src/sync/manager.rs) starts and stops the workers.
--
-- Files. Common: lists, results, words and texts. Json: the values of serde_json. Mcp/Gates:
-- src/mcp/gates.rs. Mail: the parsed message; Mail/Threading:
-- crates/postblox-mail/src/threading.rs. Imap: src/imap/error.rs and `port_u16`; Imap/Client:
-- `fetch_uid_range` of src/imap/client.rs and `ConnectorAuth::sync_folder` of src/imap/mod.rs. Db:
-- the rows of src/models.rs and the store; Db/Messages, Db/Threads, Db/Folders: the SQL statements
-- that a sync runs, as functions on the store. Auth: src/auth.rs. Sync/Exec: actions on the store
-- that may fail; what was written before an error stays written, as in the code, which opens no
-- transaction. Sync/Ingest and Sync/Reconcile: `reconcile_folder`, cut at its loop, the loop's
-- body and its branches. Sync/Worker: the polling and IDLE workers of src/sync/worker.rs, with the
-- states of src/sync/state.rs. Sync/Manager: src/sync/manager.rs, where each step of a stop
-- (taking the worker, cancelling it, aborting it) is an action of its own, since other calls come
-- between. Mail/Reply: crates/postblox-mail/src/reply.rs. Mail/ReplyExtract:
-- crates/postblox-mail/src/reply_extract.rs. Ipc/Wire: src/ipc/wire.rs. Ipc/Hub: the topic names
-- of src/ipc/hub.rs. Db/Approvals: the approvals of src/db/mcp.rs. Db/SqlQuery: the filter of
-- src/db/sql_query.rs. Attachments: the file names of src/attachments.rs. Ipc/Protocol:
-- src/ipc/protocol.rs; Ipc/Server: `handle_subscribe`, `handle_unsubscribe` and the answer to a
-- request of src/ipc/server.rs, and in Ipc/Server/Subscriptions the steps in which the handlers of
-- one connection interleave. Daemon/Op: src/daemon/op.rs. Mcp/Protocol: src/mcp/protocol.rs;
-- Mcp/Tools with Catalogue, Property and Schema: src/mcp/tools.rs; Mcp/Bridge with Exec and Calls:
-- the answers of src/mcp/server.rs, from a line on stdin to the requests that it leaves at the
-- daemon. Tui/Command, Tui/Completion, Tui/Suggestion: src/tui/command.rs. Of src/tui/app.rs:
-- Tui/Bytes: the character offsets; Tui/Lines: the cache of lines; Tui/Composer with Edits and
-- Keys: the composer and its keys; Tui/Mailbox: the conversations of a folder and what is
-- selected; Tui/FolderCache: the cache of folders; Tui/MessageList: what changes and restores the
-- message list.
--
-- What is a parameter. The IMAP session (library async-imap, with the deadlines of `timed`), the
-- connector, the cancellation token, the credential resolver, the MIME parser, the attachment
-- store, the clock (one instant per run) and the case tables of Unicode are arguments of the
-- definitions. The database answers every statement; only its UNIQUE constraints refuse. JSON text
-- is parsed by a parameter. What the daemon answers to the bridge, and whether an event, a lost
-- stream or the timer ends a round of its waiting, are functions of the requests sent so far and
-- of the round; what the dispatcher answers to the IPC server is a function of the operation. The
-- parsers of identifiers and timestamps are parameters too. Identifiers are numbers. Of the rest
-- of the terminal client's state the message list takes what it asks of it as arguments: whether
-- the approvals or the drafts folder is selected, the message in focus, and whether a hit of the
-- search is in a known or another account.
--
-- Bounds and fuel. UIDs are 32-bit numbers with saturating sums. The loop over the windows runs on
-- fuel: 2^32 - 1 rounds are enough against the client, since each window begins above the one
-- before. The loop that strips subject prefixes runs on the length of the subject, which each
-- round shortens. The loops of the workers have no end of their own: their fuel is the number of
-- rounds that is looked at. The wait for an approval runs on rounds: as many as the timer takes to
-- run out are enough. The identifier of a subscription wraps at 2^64. A column of the composer is
-- no larger than its field, which is limited to 100,000 characters.
--
-- Not modelled: the daemon's dispatcher, the tasks that forward events, the drawing and the keys
-- of the terminal client beyond its composer, OAuth, secrets, SMTP, the MIME parser and builder,
-- search, and drafts.
pub mod Common
pub mod Json
pub mod Mcp
pub mod Mail
pub mod Imap
pub mod Db
pub mod Auth
pub mod Sync
pub mod Attachments
pub mod Daemon
pub mod Ipc
pub mod Tui
