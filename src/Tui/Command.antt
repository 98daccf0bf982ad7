-- ===== src/Tui/Command.antt =====
-- src/tui/command.rs: the commands of the `:` line, and the theme names of src/tui/theme.rs.
-- A `match` on literals is a look-up in the list of its arms.
pub mod Names
use postblox.Common.{
  ℕ, zero, suc, ◌+◌, ◌-◌, min, Bool, true, false, not, ◌&&◌, ◌||◌, Option, none, some, List, [],
  ◌∷◌, ◌++◌, map, Result, ok, err, ◌>>=◌, ◌==◌, ltb, if◌then◌else◌, any, all, select, is_empty,
  length,
}
use postblox.Common.Text.{
  Text, codes, text_eq, starts_with, strip_prefix, trim, trim_start, split_whitespace, join,
  is_whitespace,
}

pub data ThemeName : Type 0 where
  dark light high_contrast : ThemeName

pub data Command : Type 0 where
  sync start_sync stop_sync seen unseen flag unflag archive approvals approve delete deny : Command
  compose reply reply_all forward help theme_next write : Command
  move goto account : Text → Command
  theme : ThemeName → Command
  search : (account : Option Text) (query : Text) → Command

pub data CommandError : Type 0 where
  empty : CommandError
  unknown usage : Text → CommandError

abbrev pub command_names : List Text
command_names =
    map (λ s. codes s)
      ("account"
        ∷ ("approvals"
            ∷ ("approve"
                ∷ ("archive"
                    ∷ ("compose"
                        ∷ ("delete"
                            ∷ ("deny"
                                ∷ ("flag"
                                    ∷ ("forward"
                                        ∷ ("goto"
                                            ∷ ("help"
                                                ∷ ("move"
                                                    ∷ ("reply"
                                                        ∷ ("reply-all"
                                                            ∷ ("search"
                                                            ∷ ("seen"
                                                            ∷ ("start-sync"
                                                            ∷ ("stop-sync"
                                                            ∷ ("sync"
                                                            ∷ ("theme"
                                                            ∷ ("unflag"
                                                            ∷ ("unseen"
                                                            ∷ ("w" ∷ [])))))))))))))))))))))))

-- The commands without arguments.
abbrev pub no_args : List (Text × Command)
no_args =
    (codes "sync", sync)
    ∷ ((codes "start-sync", start_sync)
        ∷ ((codes "stop-sync", stop_sync)
            ∷ ((codes "seen", seen)
                ∷ ((codes "unseen", unseen)
                    ∷ ((codes "flag", flag)
                        ∷ ((codes "unflag", unflag)
                            ∷ ((codes "archive", archive)
                                ∷ ((codes "approvals", approvals)
                                    ∷ ((codes "approve", approve)
                                        ∷ ((codes "delete", delete)
                                            ∷ ((codes "deny", deny)
                                                ∷ ((codes "compose", compose)
                                                    ∷ ((codes "reply", reply)
                                                        ∷ ((codes "reply-all", reply_all)
                                                            ∷ ((codes "forward", forward)
                                                            ∷ ((codes "help", help)
                                                            ∷ ((codes "w", write)
                                                            ∷ [])))))))))))))))))

unfoldable pub lookup : Text → List (Text × Command) → Option Command
lookup name [] = none
lookup name ((key, command) ∷ rest) =
    let found = lookup name rest in if text_eq key name then some command else found

abbrev parse_no_args : Command → Text → List Text → Result CommandError Command
parse_no_args command token [] = ok command
parse_no_args command token (_ ∷ _) = err (usage token)

abbrev after_token : Option Text → Text → Text
after_token (some rest) trimmed = rest
after_token none trimmed = trimmed

unfoldable pub remainder_after_token : Text → Text → Text
remainder_after_token input token =
    after_token (strip_prefix token (trim_start input)) (trim_start input)

abbrev usage_for : Text → CommandError
usage_for token =
    if text_eq token (codes "move")
    then usage (codes "move <folder>")
    else if text_eq token (codes "goto")
    then usage (codes "goto <folder>")
    else usage (codes "missing argument")

unfoldable pub parse_remainder : Text → Text → List Text → Result CommandError Text
parse_remainder input token [] = err (usage_for token)
parse_remainder input token (_ ∷ _) =
    let value = trim (remainder_after_token input token) in
    if is_empty value then err (usage_for token) else ok value

abbrev parse_account : List Text → Result CommandError Command
parse_account (name ∷ []) = ok (account name)
parse_account _ = err (usage (codes "account <name|email>"))

abbrev search_usage : CommandError
search_usage = usage (codes "search [--account <name>] <query>")

abbrev searched : Option Text → List Text → Result CommandError Command
searched filter [] = err search_usage
searched filter (w ∷ ws) = ok (search filter (join (codes " ") (w ∷ ws)))

-- The loop over the words, with what it has found so far.
unfoldable pub search_words : Option Text → List Text → List Text → Result CommandError Command
search_words filter query [] = searched filter query
search_words filter query (part ∷ []) =
    if text_eq part (codes "--account")
    then err search_usage
    else searched filter (query ++ (part ∷ []))
search_words filter query (part ∷ (value ∷ rest)) = elim (text_eq part (codes "--account")) [
  | false ↦ search_words filter (query ++ (part ∷ [])) (value ∷ rest)
  | true ↦ elim filter [ some _ ↦ err search_usage | none ↦ search_words (some value) query rest ]
]

unfoldable pub theme_from_str : Text → Option ThemeName
theme_from_str value =
    if text_eq value (codes "light")
    then some light
    else if text_eq value (codes "dark")
    then some dark
    else if text_eq value (codes "high-contrast") || text_eq value (codes "hc")
    then some high_contrast
    else none

abbrev theme_usage : CommandError
theme_usage = usage (codes "theme next|light|dark|high-contrast")

abbrev themed : Option ThemeName → Result CommandError Command
themed none = err theme_usage
themed (some name) = ok (theme name)

abbrev parse_theme : List Text → Result CommandError Command
parse_theme (name ∷ []) =
    if text_eq name (codes "next") then ok theme_next else themed (theme_from_str name)
parse_theme _ = err theme_usage

abbrev remainder_command : (Text → Command) → Result CommandError Text → Result CommandError Command
remainder_command f (ok value) = ok (f value)
remainder_command f (err e) = err e

abbrev parse_with_args : Text → Text → List Text → Result CommandError Command
parse_with_args input name parts =
    if text_eq (codes "move") name
    then remainder_command move (parse_remainder input (codes "move") parts)
    else if text_eq (codes "goto") name
    then remainder_command goto (parse_remainder input (codes "goto") parts)
    else if text_eq (codes "account") name
    then parse_account parts
    else if text_eq (codes "search") name
    then search_words none [] parts
    else if text_eq (codes "theme") name
    then parse_theme parts
    else err (unknown name)

abbrev dispatch : Text → Text → List Text → Option Command → Result CommandError Command
dispatch input name parts (some command) = parse_no_args command name parts
dispatch input name parts none = parse_with_args input name parts

abbrev parse_words : Text → List Text → Result CommandError Command
parse_words input [] = err empty
parse_words input (name ∷ parts) = dispatch input name parts (lookup name no_args)

unfoldable pub parse_command : Text → Result CommandError Command
parse_command input = parse_words input (split_whitespace input)
