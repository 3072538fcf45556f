-- ===== src/Exercises/Bits.antt =====
-- Bits/bits.c and Bits/bits3.c: the digits of an `int` of 32 bits and their count. A negative
-- number is shifted with its sign, as usual compilers do.
use native.Mathlib.Nat.{div-div-eq-div-mul, div-add-mod, div-one, div-eq_of_lt, pow-suc}
use eltex_lessons.Base.{
  ℕ, zero, suc, ◌+◌, ◌-◌, ◌*◌, ◌/◌, ◌%◌, ◌^◌, ◌≤◌, ◌<◌, ◌≡◌, refl, sym, ◌∙◌, ap, Bool, true, false,
  ◌&&◌, not, Option, none, some, [], ◌∷◌, ◌++◌, arith, ◌==◌, if◌then◌else◌,
}
use eltex_lessons.Base.Int.{ℤ, pos, negsuc}
use eltex_lessons.Text.{Bytes}

-- An `int` as 32 bits, and `(number >> i) & 1`.
abbrev pub int_bits : ℤ → ℕ
int_bits (pos n) = n
int_bits (negsuc n) = 4294967295 - n

abbrev pub bit : ℕ → ℕ → ℕ
bit w i = w / 2 ^ i % 2

-- The loop that prints, from the bit below `i` on.
unfoldable pub print_bits : ℕ → ℕ → Bytes
print_bits zero w = []
print_bits (suc i) w =
    (48 + bit w i) ∷ ((if i % 4 == 0 && not (i == 0) then 32 ∷ [] else []) ++ print_bits i w)

-- The loop that counts.
unfoldable pub count_ones : ℕ → ℕ → ℕ → ℕ
count_ones zero w count = count
count_ones (suc i) w count = count_ones i w (if bit w i == 1 then count + 1 else count)

-- bits3.c: the digits, and the count of a number that is positive.
unfoldable pub bits3 : ℤ → Bytes × Option ℕ
bits3 (pos zero) = (print_bits 32 0, none)
bits3 (pos (suc n)) = (print_bits 32 (suc n), some (count_ones 32 (suc n) 0))
bits3 (negsuc n) = (print_bits 32 (int_bits (negsuc n)), none)

-- A text of binary digits and spaces read as a number, behind the digits of `acc`.
unfoldable pub read_bits : ℕ → Bytes → ℕ
read_bits acc [] = acc
read_bits acc (c ∷ s) = if c == 32 then read_bits acc s else read_bits (2 * acc + (c - 48)) s

abbrev pub occurrences : ℕ → Bytes → ℕ
occurrences c [] = 0
occurrences c (d ∷ s) = if d == c then occurrences c s + 1 else occurrences c s

-- `gaps` further groups of four digits 0 or 1 behind `left` digits, each behind a space.
abbrev pub IsGrouped : ℕ → ℕ → Bytes → Type 0
IsGrouped zero zero [] = Unit
IsGrouped (suc gaps) zero [] = ⊥
IsGrouped gaps (suc left) [] = ⊥
IsGrouped zero zero (c ∷ s) = ⊥
IsGrouped (suc gaps) zero (c ∷ s) = (c ≡ 32) × IsGrouped gaps 4 s
IsGrouped gaps (suc left) (c ∷ s) = ((48 ≤ c) × (c ≤ 49)) × IsGrouped gaps left s

-- The text has eight groups of four digits, and its digits are those of the number.
abbrev pub IsShown : Bytes → ℕ → Type 0
IsShown s w = (read_bits 0 s ≡ w) × IsGrouped 7 4 s

halves : (w i : ℕ) → 2 * (w / 2 ^ suc i) + bit w i ≡ w / 2 ^ i
halves w i =
    let two : w / 2 ^ suc i ≡ w / 2 ^ i / 2 =
      ap (λ m. w / m) (pow-suc 2 i) ∙ sym (div-div-eq-div-mul w (2 ^ i) 2) in
    rw two (div-add-mod (w / 2 ^ i) 2)

read_digit : (acc d : ℕ) (s : Bytes) → read_bits acc ((48 + d) ∷ s) ≡ read_bits (2 * acc + d) s
unfolding read_bits
read_digit acc d s =
    let same : 48 + d - 48 ≡ d = omega arith in
    let no_gap : (48 + d == 32) ≡ false = ground arith in
    rw no_gap (ap (λ x. read_bits (2 * acc + x) s) same)

read_gap :
    (b : Bool) (acc : ℕ) (s : Bytes)
    → read_bits acc ((if b then 32 ∷ [] else []) ++ s) ≡ read_bits acc s
unfolding read_bits
read_gap true acc s = refl
read_gap false acc s = refl

read_bits-print_bits : (k w : ℕ) → read_bits (w / 2 ^ k) (print_bits k w) ≡ w
unfolding print_bits read_bits
read_bits-print_bits zero w = div-one w
read_bits-print_bits (suc i) w =
    read_digit (w / 2 ^ suc i) (bit w i)
      ((if i % 4 == 0 && not (i == 0) then 32 ∷ [] else []) ++ print_bits i w)
    ∙ read_gap (i % 4 == 0 && not (i == 0)) (2 * (w / 2 ^ suc i) + bit w i) (print_bits i w)
    ∙ ap (λ x. read_bits x (print_bits i w)) (halves w i)
    ∙ read_bits-print_bits i w

next_one :
    (d n : ℕ) (s : Bytes)
    → (if d == 1 then n + 1 else n) + occurrences 49 s ≡ n + occurrences 49 ((48 + d) ∷ s)
next_one d n s = ground arith

gap_ones :
    (b : Bool) (s : Bytes) → occurrences 49 ((if b then 32 ∷ [] else []) ++ s) ≡ occurrences 49 s
gap_ones true s = refl
gap_ones false s = refl

count_ones-print_bits : (k w n : ℕ) → count_ones k w n ≡ n + occurrences 49 (print_bits k w)
unfolding count_ones print_bits
count_ones-print_bits zero w n = omega arith
count_ones-print_bits (suc i) w n =
    let gap = i % 4 == 0 && not (i == 0) in
    count_ones-print_bits i w (if bit w i == 1 then n + 1 else n)
    ∙ ap (λ k. (if bit w i == 1 then n + 1 else n) + k) (sym (gap_ones gap (print_bits i w)))
    ∙ next_one (bit w i) n ((if gap then 32 ∷ [] else []) ++ print_bits i w)

digit : (w i : ℕ) → (48 ≤ 48 + bit w i) × (48 + bit w i ≤ 49)
digit w i = omega arith

four :
    (w i gaps : ℕ) (s : Bytes)
    → IsGrouped gaps 0 s
    → IsGrouped gaps 4
        ((48 + bit w (3 + i)) ∷ (48 + bit w (2 + i)) ∷ (48 + bit w (1 + i)) ∷ (48 + bit w i) ∷ s)
four w i gaps s g = (digit w (3 + i), (digit w (2 + i), (digit w (1 + i), (digit w i, g))))

print_bits-IsGrouped : (w : ℕ) → IsGrouped 7 4 (print_bits 32 w)
unfolding print_bits
print_bits-IsGrouped w =
    let four_1 : IsGrouped 0 4 (print_bits 4 w) = four w 0 0 [] tt in
    let four_2 : IsGrouped 1 4 (print_bits 8 w) = four w 4 1 (32 ∷ print_bits 4 w) (refl, four_1) in
    let four_3 : IsGrouped 2 4 (print_bits 12 w) =
      four w 8 2 (32 ∷ print_bits 8 w) (refl, four_2) in
    let four_4 : IsGrouped 3 4 (print_bits 16 w) =
      four w 12 3 (32 ∷ print_bits 12 w) (refl, four_3) in
    let four_5 : IsGrouped 4 4 (print_bits 20 w) =
      four w 16 4 (32 ∷ print_bits 16 w) (refl, four_4) in
    let four_6 : IsGrouped 5 4 (print_bits 24 w) =
      four w 20 5 (32 ∷ print_bits 20 w) (refl, four_5) in
    let four_7 : IsGrouped 6 4 (print_bits 28 w) =
      four w 24 6 (32 ∷ print_bits 24 w) (refl, four_6) in
    four w 28 7 (32 ∷ print_bits 28 w) (refl, four_7)

print_bits-IsShown : (w : ℕ) → w < 4294967296 → IsShown (print_bits 32 w) w
print_bits-IsShown w h = (
  ap (λ x. read_bits x (print_bits 32 w)) (sym (div-eq_of_lt h)) ∙ read_bits-print_bits 32 w,
  print_bits-IsGrouped w,
)

-- For every `int`, which is `n` or `- n - 1` with `n` below 2 to the 31, the digits are eight
-- groups of four digits 0 or 1 with a space between two groups; read as a binary number they
-- are the number, or its two's complement where it is negative. bits3.c gives a count for a
-- positive number only, and that count is the number of digits 1 in the text.
pub bits3_lem :
    (n : ℕ)
    → n < 2147483648
    → IsShown (bits3 (pos n)).0 n
      × IsShown (bits3 (negsuc n)).0 (4294967295 - n)
      × ((bits3 (pos n)).1 ≡ (if n == 0 then none else some (occurrences 49 (bits3 (pos n)).0)))
      × ((bits3 (negsuc n)).1 ≡ none)
unfolding bits3
bits3_lem zero h =
    (print_bits-IsShown 0 (omega arith), print_bits-IsShown 4294967295 (omega arith), refl, refl)
bits3_lem (suc n) h =
    let not_zero : (suc n == 0) ≡ false = ground arith in
    (
      print_bits-IsShown (suc n) (omega arith),
      print_bits-IsShown (4294967295 - suc n) (omega arith),
      rw not_zero (ap some (omega (arith, count_ones-print_bits 32 (suc n) 0))),
      refl,
    )
