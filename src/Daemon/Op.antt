-- ===== src/Daemon/Op.antt =====
-- src/daemon/op.rs: the operations of the daemon and their wire names.
use postblox.Common.{
  ◌≡◌, refl, sym, ◌∙◌, ap, subst, ◌↔◌, inl, inr, List, [], ◌∷◌, All, Result, ok, err, if◌then◌else◌,
  Bool-cases,
}
use postblox.Common.Text.{Text, codes, text_eq}
use postblox.Common.Text.Equality.{text_eq_iff}

pub data Op : Type 0 where
  account_list folder_list thread_list message_list_by_folder message_list_by_thread message_get
        attachment_list attachment_preview search sql_query sql_schema audit_list_recent
        mcp_gate_list mcp_gate_create mcp_gate_delete mcp_approval_create mcp_approval_list
        mcp_approval_get mcp_approval_decide account_create account_delete folder_upsert
        message_set_flags message_archive message_delete message_move draft_create draft_update
        draft_delete draft_list draft_get attachment_export message_prepare_reply
        message_prepare_forward attachment_fetch_for_forward attachment_fetch_for_forward_batch
        message_send account_test_login account_sync_folder account_start_sync account_stop_sync
        account_set_secret account_delete_secret oauth_google_auth_url oauth_google_complete :
      Op

-- `Op::as_str`
unfoldable pub op_name : Op → Text
op_name account_list = codes "account.list"
op_name folder_list = codes "folder.list"
op_name thread_list = codes "thread.list"
op_name message_list_by_folder = codes "message.list_by_folder"
op_name message_list_by_thread = codes "message.list_by_thread"
op_name message_get = codes "message.get"
op_name attachment_list = codes "attachment.list"
op_name attachment_preview = codes "attachment.preview"
op_name search = codes "search"
op_name sql_query = codes "sql.query"
op_name sql_schema = codes "sql.schema"
op_name audit_list_recent = codes "audit.list_recent"
op_name mcp_gate_list = codes "mcp.gate.list"
op_name mcp_gate_create = codes "mcp.gate.create"
op_name mcp_gate_delete = codes "mcp.gate.delete"
op_name mcp_approval_create = codes "mcp.approval.create"
op_name mcp_approval_list = codes "mcp.approval.list"
op_name mcp_approval_get = codes "mcp.approval.get"
op_name mcp_approval_decide = codes "mcp.approval.decide"
op_name account_create = codes "account.create"
op_name account_delete = codes "account.delete"
op_name folder_upsert = codes "folder.upsert"
op_name message_set_flags = codes "message.set_flags"
op_name message_archive = codes "message.archive"
op_name message_delete = codes "message.delete"
op_name message_move = codes "message.move"
op_name draft_create = codes "draft.create"
op_name draft_update = codes "draft.update"
op_name draft_delete = codes "draft.delete"
op_name draft_list = codes "draft.list"
op_name draft_get = codes "draft.get"
op_name attachment_export = codes "attachment.export"
op_name message_prepare_reply = codes "message.prepare_reply"
op_name message_prepare_forward = codes "message.prepare_forward"
op_name attachment_fetch_for_forward = codes "attachment.fetch_for_forward"
op_name attachment_fetch_for_forward_batch = codes "attachment.fetch_for_forward_batch"
op_name message_send = codes "message.send"
op_name account_test_login = codes "account.test_login"
op_name account_sync_folder = codes "account.sync_folder"
op_name account_start_sync = codes "account.start_sync"
op_name account_stop_sync = codes "account.stop_sync"
op_name account_set_secret = codes "account.set_secret"
op_name account_delete_secret = codes "account.delete_secret"
op_name oauth_google_auth_url = codes "oauth.google.auth_url"
op_name oauth_google_complete = codes "oauth.google.complete"

pub data ParseOpError : Type 0 where
  unknown_op : Text → ParseOpError

-- The arms of the match in `Op::from_str`, in their order.
abbrev arms : List (Text × Op)
arms =
    (codes "account.list", account_list)
    ∷ (codes "folder.list", folder_list)
    ∷ (codes "thread.list", thread_list)
    ∷ (codes "message.list_by_folder", message_list_by_folder)
    ∷ (codes "message.list_by_thread", message_list_by_thread)
    ∷ (codes "message.get", message_get)
    ∷ (codes "attachment.list", attachment_list)
    ∷ (codes "attachment.preview", attachment_preview)
    ∷ (codes "search", search)
    ∷ (codes "sql.query", sql_query)
    ∷ (codes "sql.schema", sql_schema)
    ∷ (codes "audit.list_recent", audit_list_recent)
    ∷ (codes "mcp.gate.list", mcp_gate_list)
    ∷ (codes "mcp.gate.create", mcp_gate_create)
    ∷ (codes "mcp.gate.delete", mcp_gate_delete)
    ∷ (codes "mcp.approval.create", mcp_approval_create)
    ∷ (codes "mcp.approval.list", mcp_approval_list)
    ∷ (codes "mcp.approval.get", mcp_approval_get)
    ∷ (codes "mcp.approval.decide", mcp_approval_decide)
    ∷ (codes "account.create", account_create)
    ∷ (codes "account.delete", account_delete)
    ∷ (codes "folder.upsert", folder_upsert)
    ∷ (codes "message.set_flags", message_set_flags)
    ∷ (codes "message.archive", message_archive)
    ∷ (codes "message.delete", message_delete)
    ∷ (codes "message.move", message_move)
    ∷ (codes "draft.create", draft_create)
    ∷ (codes "draft.update", draft_update)
    ∷ (codes "draft.delete", draft_delete)
    ∷ (codes "draft.list", draft_list)
    ∷ (codes "draft.get", draft_get)
    ∷ (codes "attachment.export", attachment_export)
    ∷ (codes "message.prepare_reply", message_prepare_reply)
    ∷ (codes "message.prepare_forward", message_prepare_forward)
    ∷ (codes "attachment.fetch_for_forward", attachment_fetch_for_forward)
    ∷ (codes "attachment.fetch_for_forward_batch", attachment_fetch_for_forward_batch)
    ∷ (codes "message.send", message_send)
    ∷ (codes "account.test_login", account_test_login)
    ∷ (codes "account.sync_folder", account_sync_folder)
    ∷ (codes "account.start_sync", account_start_sync)
    ∷ (codes "account.stop_sync", account_stop_sync)
    ∷ (codes "account.set_secret", account_set_secret)
    ∷ (codes "account.delete_secret", account_delete_secret)
    ∷ (codes "oauth.google.auth_url", oauth_google_auth_url)
    ∷ (codes "oauth.google.complete", oauth_google_complete)
    ∷ []

abbrev first_arm : Text → List (Text × Op) → Result ParseOpError Op
first_arm s [] = err (unknown_op s)
first_arm s ((w, op) ∷ rest) = if text_eq s w then ok op else first_arm s rest

-- `Op::from_str`
unfoldable pub parse_op : Text → Result ParseOpError Op
parse_op s = first_arm s arms

parse_op-op_name : (op : Op) → parse_op (op_name op) ≡ ok op
unfolding parse_op op_name
parse_op-op_name account_list = refl
parse_op-op_name folder_list = refl
parse_op-op_name thread_list = refl
parse_op-op_name message_list_by_folder = refl
parse_op-op_name message_list_by_thread = refl
parse_op-op_name message_get = refl
parse_op-op_name attachment_list = refl
parse_op-op_name attachment_preview = refl
parse_op-op_name search = refl
parse_op-op_name sql_query = refl
parse_op-op_name sql_schema = refl
parse_op-op_name audit_list_recent = refl
parse_op-op_name mcp_gate_list = refl
parse_op-op_name mcp_gate_create = refl
parse_op-op_name mcp_gate_delete = refl
parse_op-op_name mcp_approval_create = refl
parse_op-op_name mcp_approval_list = refl
parse_op-op_name mcp_approval_get = refl
parse_op-op_name mcp_approval_decide = refl
parse_op-op_name account_create = refl
parse_op-op_name account_delete = refl
parse_op-op_name folder_upsert = refl
parse_op-op_name message_set_flags = refl
parse_op-op_name message_archive = refl
parse_op-op_name message_delete = refl
parse_op-op_name message_move = refl
parse_op-op_name draft_create = refl
parse_op-op_name draft_update = refl
parse_op-op_name draft_delete = refl
parse_op-op_name draft_list = refl
parse_op-op_name draft_get = refl
parse_op-op_name attachment_export = refl
parse_op-op_name message_prepare_reply = refl
parse_op-op_name message_prepare_forward = refl
parse_op-op_name attachment_fetch_for_forward = refl
parse_op-op_name attachment_fetch_for_forward_batch = refl
parse_op-op_name message_send = refl
parse_op-op_name account_test_login = refl
parse_op-op_name account_sync_folder = refl
parse_op-op_name account_start_sync = refl
parse_op-op_name account_stop_sync = refl
parse_op-op_name account_set_secret = refl
parse_op-op_name account_delete_secret = refl
parse_op-op_name oauth_google_auth_url = refl
parse_op-op_name oauth_google_complete = refl

abbrev IsNamed : Text × Op → Type 0
IsNamed (w, op) = w ≡ op_name op

first_arm_sound :
    (s : Text) (table : List (Text × Op)) (op : Op)
    → All IsNamed table
    → first_arm s table ≡ ok op
    → s ≡ op_name op
first_arm_sound s [] op h e = absurd (cc)
first_arm_sound s ((w, x) ∷ rest) op h e = elim (Bool-cases (text_eq s w)) [
  | inl same ↦ (text_eq_iff s w).0 same ∙ h.0 ∙ ap op_name (cc (rw same at e))
  | inr other ↦ first_arm_sound s rest op h.1 (rw other at e)
]

arms-IsNamed : All IsNamed arms
unfolding op_name
arms-IsNamed = (
  refl,
  (
    refl,
    (
      refl,
      (
        refl,
        (
          refl,
          (
            refl,
            (
              refl,
              (
                refl,
                (
                  refl,
                  (
                    refl,
                    (
                      refl,
                      (
                        refl,
                        (
                          refl,
                          (
                            refl,
                            (
                              refl,
                              (
                                refl,
                                (
                                  refl,
                                  (
                                    refl,
                                    (
                                      refl,
                                      (
                                        refl,
                                        (
                                          refl,
                                          (
                                            refl,
                                            (
                                              refl,
                                              (
                                                refl,
                                                (
                                                  refl,
                                                  (
                                                    refl,
                                                    (
                                                      refl,
                                                      (
                                                        refl,
                                                        (
                                                          refl,
                                                          (
                                                            refl,
                                                            (
                                                            refl,
                                                            (
                                                            refl,
                                                            (
                                                            refl,
                                                            (
                                                            refl,
                                                            (
                                                            refl,
                                                            (
                                                            refl,
                                                            (
                                                            refl,
                                                            (
                                                            refl,
                                                            (
                                                            refl,
                                                            (
                                                            refl,
                                                            (
                                                            refl,
                                                            (refl, (refl, (refl, (refl, tt)))),
                                                            ),
                                                            ),
                                                            ),
                                                            ),
                                                            ),
                                                            ),
                                                            ),
                                                            ),
                                                            ),
                                                            ),
                                                            ),
                                                          ),
                                                        ),
                                                      ),
                                                    ),
                                                  ),
                                                ),
                                              ),
                                            ),
                                          ),
                                        ),
                                      ),
                                    ),
                                  ),
                                ),
                              ),
                            ),
                          ),
                        ),
                      ),
                    ),
                  ),
                ),
              ),
            ),
          ),
        ),
      ),
    ),
  ),
)

-- A text is parsed as an operation exactly when it is that operation's wire name.
pub parse_op_iff : (s : Text) (op : Op) → (parse_op s ≡ ok op) ↔ (s ≡ op_name op)
unfolding parse_op
parse_op_iff s op = (
  first_arm_sound s arms op arms-IsNamed,
  λ e. subst (λ t. parse_op t ≡ ok op) (sym e) (parse_op-op_name op),
)
