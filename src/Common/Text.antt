-- ===== src/Common/Text.antt =====
-- Text as the list of its Unicode scalar values, and the standard library's operations on it.
-- Lengths in bytes are those of the UTF-8 encoding.
pub mod Equality
pub mod Affix
use Prim.Native.Char.{code}
use Prim.Native.String.{String}
use Prim.Native.Nat.{ℕ, zero, suc, ◌+◌, ◌/◌, ◌%◌}
use mathlib.Core.Bool.{Bool, true, false, not, ◌&&◌, ◌||◌}
use mathlib.Core.Option.{Option, none, some}
use mathlib.Core.List.{List, [], ◌∷◌, ◌++◌, map, reverse}
use postblox.Common.Tests.{ltb, leb, ◌==◌, if◌then◌else◌}
use postblox.Common.Lists.{any, select, is_empty}

abbrev pub Text : Type 0
Text = List ℕ

-- The text of a literal.
abbrev pub codes : String → Text
codes String.[] = []
codes (String.◌∷◌ c s) = code c ∷ codes s

abbrev pub text_eq : Text → Text → Bool
text_eq [] [] = true
text_eq (x ∷ xs) (y ∷ ys) = x == y && text_eq xs ys
text_eq _ _ = false

-- `str::strip_prefix`, the prefix first
abbrev pub strip_prefix : Text → Text → Option Text
strip_prefix [] t = some t
strip_prefix (c ∷ p) [] = none
strip_prefix (c ∷ p) (d ∷ t) = if c == d then strip_prefix p t else none

-- `text.starts_with(prefix)`
abbrev pub starts_with : Text → Text → Bool
starts_with t [] = true
starts_with [] (c ∷ p) = false
starts_with (d ∷ t) (c ∷ p) = c == d && starts_with t p

-- `text.ends_with(suffix)`
abbrev pub ends_with : Text → Text → Bool
ends_with [] s = text_eq [] s
ends_with (d ∷ t) s = text_eq (d ∷ t) s || ends_with t s

-- `char::is_whitespace`: the code points with the property White_Space.
abbrev pub is_whitespace : ℕ → Bool
is_whitespace c =
    (leb 9 c && leb c 13)
    || c == 32
    || c == 0x85
    || c == 0xa0
    || c == 0x1680
    || (leb 0x2000 c && leb c 0x200a)
    || c == 0x2028
    || c == 0x2029
    || c == 0x202f
    || c == 0x205f
    || c == 0x3000

-- Leading scalar values that pass the test are dropped.
abbrev pub trim_start_matches : (ℕ → Bool) → Text → Text
trim_start_matches p [] = []
trim_start_matches p (c ∷ t) = let rest = trim_start_matches p t in if p c then rest else c ∷ t

abbrev pub trim_end_matches : (ℕ → Bool) → Text → Text
trim_end_matches p t = reverse (trim_start_matches p (reverse t))

abbrev pub trim_matches : (ℕ → Bool) → Text → Text
trim_matches p t = trim_end_matches p (trim_start_matches p t)

abbrev pub trim_start : Text → Text
trim_start = trim_start_matches is_whitespace

abbrev pub trim : Text → Text
trim = trim_matches is_whitespace

abbrev pub prepend : ℕ → List Text → List Text
prepend c [] = (c ∷ []) ∷ []
prepend c (w ∷ ws) = (c ∷ w) ∷ ws

-- `str::split`: the pieces between the scalar values that pass the test, empty ones kept.
abbrev pub split : (ℕ → Bool) → Text → List Text
split p [] = [] ∷ []
split p (c ∷ t) = let rest = split p t in if p c then [] ∷ rest else prepend c rest

abbrev pub split_whitespace : Text → List Text
split_whitespace t = select (λ w. not (is_empty w)) (split is_whitespace t)

-- `slice::join`
abbrev pub join : Text → List Text → Text
join sep [] = []
join sep (w ∷ []) = w
join sep (w ∷ (v ∷ ws)) = w ++ (sep ++ join sep (v ∷ ws))

abbrev pub len_utf8 : ℕ → ℕ
len_utf8 c = if ltb c 0x80 then 1 else if ltb c 0x800 then 2 else if ltb c 0x10000 then 3 else 4

-- `str::len`
abbrev pub byte_len : Text → ℕ
byte_len [] = 0
byte_len (c ∷ t) = len_utf8 c + byte_len t

abbrev pub is_ascii_uppercase : ℕ → Bool
is_ascii_uppercase c = leb b'A' c && leb c b'Z'

abbrev pub is_ascii_lowercase : ℕ → Bool
is_ascii_lowercase c = leb b'a' c && leb c b'z'

abbrev pub is_ascii_digit : ℕ → Bool
is_ascii_digit c = leb b'0' c && leb c b'9'

abbrev pub is_ascii_alphanumeric : ℕ → Bool
is_ascii_alphanumeric c = is_ascii_uppercase c || is_ascii_lowercase c || is_ascii_digit c

abbrev pub ascii_lower : ℕ → ℕ
ascii_lower c = if is_ascii_uppercase c then c + 32 else c

abbrev pub to_ascii_lowercase : Text → Text
to_ascii_lowercase = map ascii_lower

abbrev pub eq_ignore_ascii_case : Text → Text → Bool
eq_ignore_ascii_case a b = text_eq (to_ascii_lowercase a) (to_ascii_lowercase b)

abbrev pub contains_char : ℕ → Text → Bool
contains_char c = any (λ d. d == c)

-- A number below 10^20 as `Display` writes it, the digits on fuel
abbrev pub digits : (fuel n : ℕ) → Text
digits zero n = []
digits (suc fuel) n =
    let rest = digits fuel (n / 10) in
    if ltb n 10 then (48 + n) ∷ [] else rest ++ ((48 + n % 10) ∷ [])

abbrev pub decimal : ℕ → Text
decimal = digits 20
