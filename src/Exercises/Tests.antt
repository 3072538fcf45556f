-- ===== src/Exercises/Tests.antt =====
-- The exercises on concrete texts and numbers.
use eltex_lessons.Base.{ℕ, ◌≡◌, none, some, arith, set}
use eltex_lessons.Base.Int.{pos, negsuc}
use eltex_lessons.Text.{codes, before}
use eltex_lessons.Exercises.Substring.{IsFirst, find_substring, find_substring_lem}
use eltex_lessons.Exercises.Bits.{bits3, occurrences, IsShown, bits3_lem}
use eltex_lessons.Exercises.MemoryBytes.{change_byte, bytes_of, shown, char_value, change_byte_lem}

find_substring_lem_example :
    IsFirst 0
      (codes "banana")
      (before 10 (codes "nan"))
      (find_substring 0 (codes "banana") (codes "nan"))
find_substring_lem_example = find_substring_lem b'b' (codes "anana") (codes "nan")

bits3_lem_example :
    IsShown (bits3 (pos 12)).0 12
    × IsShown (bits3 (negsuc 12)).0 4294967283
    × ((bits3 (pos 12)).1 ≡ some (occurrences 49 (bits3 (pos 12)).0))
    × ((bits3 (negsuc 12)).1 ≡ none)
bits3_lem_example = bits3_lem 12 (omega arith)

change_byte_lem_example :
    (m : ℕ) × (change_byte (pos 270533154) (pos 200)
      ≡ some (shown 270533154, pos m, set (shown 270533154) 1 (char_value 200)))
    × (bytes_of 4 m ≡ set (bytes_of 4 270533154) 1 200)
change_byte_lem_example = change_byte_lem 270533154 (pos 200) (omega arith)
