-- ===== src/Calculator.antt =====
-- Calculator: add.c, sub.c, mul.c, div.c and the loop of main.c; Calculator_D and Calculator_M
-- hold the same sources. What scanf reads comes in as numbers. An operation whose result is not an
-- `int` of 32 bits is undefined. The menu and the wording of the lines are left out.
pub mod Division
mod Tests
use eltex_lessons.Base.{
  ℕ, zero, suc, ◌+◌, ◌*◌, ◌/◌, Bool, true, false, ◌||◌, Option, none, some, List, [], ◌∷◌, ltb,
  ◌==◌, if◌then◌else◌,
}
use eltex_lessons.Base.Int.{ℤ, pos, negsuc, ◌+ℤ◌, ◌-ℤ◌, ltb_ℤ, eq_ℤ}

abbrev pub minus : ℕ → ℤ
minus zero = pos 0
minus (suc n) = negsuc n

infixl 70 ◌*ℤ◌ ◌/ℤ◌
abbrev pub ◌*ℤ◌ : ℤ → ℤ → ℤ
pos a *ℤ pos b = pos (a * b)
pos a *ℤ negsuc b = minus (a * suc b)
negsuc a *ℤ pos b = minus (suc a * b)
negsuc a *ℤ negsuc b = pos (suc a * suc b)

-- The division of C, which rounds toward zero.
abbrev pub ◌/ℤ◌ : ℤ → ℤ → ℤ
pos a /ℤ pos b = pos (a / b)
pos a /ℤ negsuc b = minus (a / suc b)
negsuc a /ℤ pos b = minus (suc a / b)
negsuc a /ℤ negsuc b = pos (suc a / suc b)

abbrev pub is_int : ℤ → Bool
is_int (pos n) = ltb n 2147483648
is_int (negsuc n) = ltb n 2147483648

-- A result in an `int`; `none` where it overflows.
unfoldable pub in_int : ℤ → Option ℤ
in_int a = if is_int a then some a else none

-- What is shown in a round.
pub data Printed : Type 0 where
  value : ℤ → Printed
  no_division : Printed
  no_choice : Printed

abbrev pub show_value : Option ℤ → Option Printed
show_value none = none
show_value (some a) = some (value a)

unfoldable pub add : ℤ → ℤ → Option Printed
add a b = show_value (in_int (a +ℤ b))

unfoldable pub sub : ℤ → ℤ → Option Printed
sub a b = show_value (in_int (a -ℤ b))

unfoldable pub mul : ℤ → ℤ → Option Printed
mul a b = show_value (in_int (a *ℤ b))

unfoldable pub div : ℤ → ℤ → Option Printed
div a b = if eq_ℤ b (pos 0) then some no_division else show_value (in_int (a /ℤ b))

-- A round of the loop of `main`: the choice, and the two numbers that an operation reads.
pub record Round : Type 0 where
  pub choice : ℤ
  pub num1 : ℤ
  pub num2 : ℤ

-- The `switch`, for a choice from 1 to 4.
abbrev pub calculate : ℤ → ℤ → ℤ → Option Printed
calculate c a b =
    if eq_ℤ c (pos 1)
    then add a b
    else if eq_ℤ c (pos 2)
    then sub a b
    else if eq_ℤ c (pos 3)
    then mul a b
    else div a b

abbrev pub put_printed :
    Option Printed → Option (List Printed × Bool) → Option (List Printed × Bool)
put_printed (some line) (some (lines, ended)) = some (line ∷ lines, ended)
put_printed (some line) none = none
put_printed none rest = none

-- The loop: what is shown, and whether it has ended by the choice 5 or waits for a further one;
-- `none` where an operation is undefined.
unfoldable pub calculator : List Round → Option (List Printed × Bool)
calculator [] = some ([], false)
calculator (r ∷ rs) =
    let rest = calculator rs in
    if ltb_ℤ r.choice (pos 1) || ltb_ℤ (pos 5) r.choice
    then put_printed (some no_choice) rest
    else if eq_ℤ r.choice (pos 5)
    then some ([], true)
    else put_printed (calculate r.choice r.num1 r.num2) rest
