-- ===== src/Tui/Completion.antt =====
-- src/tui/command.rs: completing a command name by Tab.
pub mod Prefix
use postblox.Common.{
  ℕ, Bool, true, false, ◌&&◌, ◌||◌, Option, none, some, List, [], ◌∷◌, map, ◌==◌, if◌then◌else◌,
  any, all, select, is_empty,
}
use postblox.Common.Text.{Text, starts_with, is_whitespace}
use postblox.Tui.Command.{command_names}

pub record CommandCompletion : Type 0 where
  pub text : Text
  pub matches : List Text
  pub unique : Bool

abbrev pub head_is : ℕ → Text → Bool
head_is c [] = false
head_is c (d ∷ t) = c == d

abbrev pub tail : Text → Text
tail [] = []
tail (c ∷ t) = t

-- The first word, as long as all words go on with the same character.
unfoldable pub common_prefix : Text → List Text → Text
common_prefix [] words = []
common_prefix (c ∷ first) words =
    let rest = common_prefix first (map tail words) in
    if all (head_is c) words then c ∷ rest else []

unfoldable pub longest_common_prefix : List Text → Text
longest_common_prefix [] = []
longest_common_prefix (first ∷ words) = common_prefix first (first ∷ words)

abbrev pub completion : List Text → Option CommandCompletion
completion [] = none
completion (only ∷ []) = some (record { text = only; matches = only ∷ []; unique = true })
completion (a ∷ (b ∷ words)) = some (record {
  text = longest_common_prefix (a ∷ (b ∷ words));
  matches = a ∷ (b ∷ words);
  unique = false;
})

abbrev pub matching : Text → List Text
matching input = select (λ name. starts_with name input) command_names

unfoldable pub complete_command : Text → Option CommandCompletion
complete_command input =
    if is_empty input
    then none
    else if any is_whitespace input
    then none
    else completion (matching input)
