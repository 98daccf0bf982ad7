-- ===== src/Attachments/Tests.antt =====
-- A name with separators and dots.
use postblox.Common.{ℕ, ◌≡◌, refl, false, true, is_empty, In}
use postblox.Common.Text.{codes}
use postblox.Attachments.{file_name, is_safe, sanitize_filename}
use postblox.Attachments.Names.{sanitize_filename-safe}

sanitize_filename-safe_example :
    (is_empty (sanitize_filename (codes "../a:b.txt")) ≡ false)
    × ((c : ℕ) → In c (sanitize_filename (codes "../a:b.txt")) → is_safe c ≡ true)
sanitize_filename-safe_example = sanitize_filename-safe (codes "../a:b.txt")

the_leaf_is_kept : sanitize_filename (codes "../a:b.txt") ≡ codes "a_b.txt"
unfolding sanitize_filename file_name
the_leaf_is_kept = refl
