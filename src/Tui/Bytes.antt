-- ===== src/Tui/Bytes.antt =====
-- The byte positions of the standard library's strings, as src/tui/app.rs uses them. A position
-- that is within a character is where the code would panic; a text is then left as it is.
pub mod Cut
use postblox.Common.{
  ℕ, zero, suc, ◌+◌, ◌-◌, Bool, true, false, Option, none, some, List, [], ◌∷◌, ◌++◌, length, take,
  drop, ltb, leb, ◌==◌, if◌then◌else◌,
}
use postblox.Common.Text.{Text, len_utf8, byte_len}

abbrev pub cons_left : ℕ → Option (Text × Text) → Option (Text × Text)
cons_left c none = none
cons_left c (some (a, b)) = some (c ∷ a, b)

-- `str::split_at` by bytes: nothing where the position is not between two characters.
unfoldable pub split_at : ℕ → Text → Option (Text × Text)
split_at n [] = if n == 0 then some ([], []) else none
split_at n (c ∷ t) =
    let rest = split_at (n - len_utf8 c) t in
    if n == 0 then some ([], c ∷ t) else if ltb n (len_utf8 c) then none else cons_left c rest

abbrev pub first_part : Option (Text × Text) → Option Text
first_part none = none
first_part (some (a, b)) = some a

abbrev from_part : ℕ → Option (Text × Text) → Option Text
from_part n none = none
from_part n (some (a, b)) = first_part (split_at n b)

-- `str::get` of a range
unfoldable pub get_range : Text → (start stop : ℕ) → Option Text
get_range t start stop =
    if leb start stop then from_part (stop - start) (split_at start t) else none

abbrev pub inserted : Text → ℕ → Option (Text × Text) → Text
inserted t ch none = t
inserted t ch (some (a, b)) = a ++ (ch ∷ b)

-- `String::insert`
unfoldable pub insert_char : Text → ℕ → ℕ → Text
insert_char t byte_index ch = inserted t ch (split_at byte_index t)

abbrev pub removed : Text → Option (Text × Text) → Option (Text × Text) → Text
removed t (some (a, _)) (some (_, c)) = a ++ c
removed t _ _ = t

-- `String::replace_range` by nothing
unfoldable pub remove_range : Text → (start stop : ℕ) → Text
remove_range t start stop = removed t (split_at start t) (split_at stop t)

abbrev pub nth_offset : ℕ → ℕ → Text → Option ℕ
nth_offset offset n [] = none
nth_offset offset zero (c ∷ t) = some offset
nth_offset offset (suc n) (c ∷ t) = nth_offset (offset + len_utf8 c) n t

abbrev pub or_len : Text → Option ℕ → ℕ
or_len t none = byte_len t
or_len t (some n) = n

unfoldable pub char_to_byte_index : Text → ℕ → ℕ
char_to_byte_index value char_index =
    if char_index == 0 then 0 else or_len value (nth_offset 0 char_index value)
