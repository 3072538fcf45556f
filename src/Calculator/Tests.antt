-- ===== src/Calculator/Tests.antt =====
-- The division of a negative number.
use eltex_lessons.Base.{refl}
use eltex_lessons.Base.Int.{pos, negsuc}
use eltex_lessons.Calculator.{div}
use eltex_lessons.Calculator.Division.{Divided, div_lem}

div_lem_example : Divided (negsuc 6) (pos 2) (div (negsuc 6) (pos 2))
div_lem_example = div_lem (negsuc 6) (pos 2) refl
