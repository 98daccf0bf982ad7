-- ===== src/Tui/Tests.antt =====
-- A few lines typed into the command bar.
use postblox.Common.{◌≡◌, refl, ◌↔◌, false, some, [], ◌∷◌, any, In, err}
use postblox.Common.Text.{codes, text_eq}
use postblox.Tui.Command.{command_names, unknown, parse_command}
use postblox.Tui.Command.Names.{parse_command-unknown_iff}
use postblox.Tui.Completion.{
  CommandCompletion, common_prefix, longest_common_prefix, complete_command,
}
use postblox.Tui.Completion.Prefix.{Completes, complete_command-Completes}
use postblox.Tui.Suggestion.{
  row_cells, rows_from, damerau_levenshtein, search_names, nearest_command_name,
}
use postblox.Tui.Suggestion.Closest.{Nearest, nearest_command_name-Nearest}

parse_command-unknown_iff_example :
    (parse_command (codes " snyc now") ≡ err (unknown (codes "snyc")))
    ↔ (any (λ n. text_eq n (codes "snyc")) command_names ≡ false)
parse_command-unknown_iff_example =
    parse_command-unknown_iff (codes " snyc now") (codes "snyc") (codes "now" ∷ []) refl

abbrev app : CommandCompletion
app = record {
  text = codes "approv";
  matches = codes "approvals" ∷ (codes "approve" ∷ []);
  unique = false;
}

complete_command-Completes_example : Completes (codes "ap") app
unfolding complete_command longest_common_prefix common_prefix
complete_command-Completes_example = complete_command-Completes (codes "ap") app refl

nearest_command_name-Nearest_example :
    Nearest (codes "snyc") (λ n. In n command_names) (nearest_command_name (codes "snyc"))
nearest_command_name-Nearest_example = nearest_command_name-Nearest (codes "snyc") refl

-- A transposition is one step.
snyc_is_one_from_sync : damerau_levenshtein (codes "snyc") (codes "sync") ≡ 1
unfolding damerau_levenshtein rows_from row_cells
snyc_is_one_from_sync = refl

kitten_is_three_from_sitting : damerau_levenshtein (codes "kitten") (codes "sitting") ≡ 3
unfolding damerau_levenshtein rows_from row_cells
kitten_is_three_from_sitting = refl

sync_is_suggested : nearest_command_name (codes "snyc") ≡ some (codes "sync")
unfolding nearest_command_name search_names damerau_levenshtein rows_from row_cells
sync_is_suggested = refl
