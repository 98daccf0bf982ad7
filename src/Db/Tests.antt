-- ===== src/Db/Tests.antt =====
-- One approval, and one statement.
use postblox.Common.{◌≡◌, refl, ◌↔◌, false, List, [], ◌∷◌, map, ok}
use postblox.Common.Text.{Text, codes}
use postblox.Json.{null}
use postblox.Db.Approvals.{McpApproval, allowed, denied, new_approval, decide_approval}
use postblox.Db.Approvals.Once.{decide_approval-once}
use postblox.Db.SqlQuery.{ascii_upper, validate_query}
use postblox.Db.SqlQuery.Accepted.{Harmless, validate_query_iff}

abbrev rows : List McpApproval
rows = new_approval 1 10 (codes "send") null (codes "send a mail") ∷ []

decide_approval-once_example :
    decide_approval 1 12 denied (codes "you") (decide_approval 1 11 allowed (codes "me") rows).1
    ≡ (false, (decide_approval 1 11 allowed (codes "me") rows).1)
decide_approval-once_example =
    decide_approval-once 1 11 12 allowed denied (codes "me") (codes "you") rows refl

abbrev statement : Text
statement = codes "SELECT id FROM accounts;"

validate_query_iff_example :
    (validate_query (map ascii_upper) statement ≡ ok tt) ↔ Harmless (map ascii_upper) statement
validate_query_iff_example = validate_query_iff (map ascii_upper) statement
