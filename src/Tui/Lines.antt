-- ===== src/Tui/Lines.antt =====
-- src/tui/app.rs: the cache of where the lines of a text begin and end, in characters and bytes.
pub mod Split
pub mod Cursor
use postblox.Common.{
  ℕ, zero, suc, ◌+◌, ◌-◌, Bool, true, false, Option, none, some, List, [], ◌∷◌, ◌++◌, length,
  get_elem?, ltb, ◌==◌, if◌then◌else◌, min, unwrap_or,
}
use postblox.Common.Text.{Text, len_utf8, byte_len}
use postblox.Tui.Bytes.{get_range}

pub record LineBounds : Type 0 where
  pub char_start : ℕ
  pub char_end : ℕ
  pub byte_start : ℕ
  pub byte_end : ℕ

pub record LineCache : Type 0 where
  pub bounds : List LineBounds
  pub char_len : ℕ

abbrev pub newline : ℕ
newline = b'\n'

abbrev pub bound : (char_start char_end byte_start byte_end : ℕ) → LineBounds
bound cs ce bs be = record { char_start = cs; char_end = ce; byte_start = bs; byte_end = be }

-- The loop of `from_text`: where the line and the rest of the text begin.
abbrev pub scan_lines : Text → (char_start byte_start char_index byte_index : ℕ) → List LineBounds
scan_lines [] cs bs ci bi = bound cs ci bs bi ∷ []
scan_lines (ch ∷ t) cs bs ci bi =
    let after = scan_lines t (ci + 1) (bi + len_utf8 ch) (ci + 1) (bi + len_utf8 ch) in
    let same = scan_lines t cs bs (ci + 1) (bi + len_utf8 ch) in
    if ch == newline then bound cs ci bs bi ∷ after else same

unfoldable pub from_text : Text → LineCache
from_text value = record { bounds = scan_lines value 0 0 0 0; char_len = length value }

abbrev pub line_count : LineCache → ℕ
line_count cache = length cache.bounds

abbrev pub clamped_line : LineCache → ℕ → Option LineBounds
clamped_line cache line = get_elem? cache.bounds (min line (length cache.bounds - 1))

abbrev pub start_of : Option LineBounds → ℕ
start_of none = 0
start_of (some b) = b.char_start

abbrev pub end_of : Option LineBounds → ℕ
end_of none = 0
end_of (some b) = b.char_end

unfoldable pub line_start : LineCache → ℕ → ℕ
line_start cache line = start_of (clamped_line cache line)

unfoldable pub line_end : LineCache → ℕ → ℕ
line_end cache line = end_of (clamped_line cache line)

-- `partition_point`, on bounds whose ends ascend
abbrev pub ends_before : List LineBounds → ℕ → ℕ
ends_before [] cursor = 0
ends_before (b ∷ bs) cursor =
    let rest = ends_before bs cursor in if ltb b.char_end cursor then suc rest else 0

unfoldable pub line_for_cursor : LineCache → ℕ → ℕ
line_for_cursor cache cursor = min (ends_before cache.bounds cursor) (length cache.bounds - 1)

abbrev pub slice : Text → LineBounds → Option Text
slice text b = get_range text b.byte_start b.byte_end

abbrev pub sliced : Text → Option LineBounds → Option Text
sliced text none = none
sliced text (some b) = slice text b

unfoldable pub line : LineCache → Text → ℕ → Option Text
line cache text n = sliced text (get_elem? cache.bounds n)

-- `(0..count).filter_map(...)`, from `n` on
abbrev pub collect : LineCache → Text → (count n : ℕ) → List Text
collect cache text zero n = []
collect cache text (suc count) n =
    let rest = collect cache text count (suc n) in
    elim (line cache text n) [ none ↦ rest | some t ↦ t ∷ rest ]

unfoldable pub lines : LineCache → Text → List Text
lines cache text = collect cache text (line_count cache) 0
