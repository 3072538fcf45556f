-- ===== src/Text/Decimal.antt =====
-- `%d` of printf and of scanf. `print_int` writes a number in base ten; `scan_int` skips white
-- space, takes a sign and at least one digit, and returns the number and the rest of the text.
-- The values of `int` are integers here: what scanf does with a number that no `int` holds is not
-- defined in C and not modelled.
use eltex_lessons.Base.{
  ℕ, zero, suc, ◌+◌, ◌-◌, ◌*◌, ◌/◌, ◌%◌, ◌≤◌, ◌<◌, ◌≡◌, refl, ◌∙◌, ap, sym, inl, inr, Bool, true,
  false, ◌&&◌, ◌||◌, Option, none, some, List, [], ◌∷◌, ◌++◌, arith, All, ltb, leb, ◌==◌,
  if◌then◌else◌, Bool-cases,
}
use mathlib.Core.List.{append-nil}
use eltex_lessons.Base.Int.{ℤ, pos, negsuc}

is_digit : ℕ → Bool
is_digit c = leb b'0' c && leb c b'9'

pub is_space : ℕ → Bool
is_space c = c == b' ' || (leb 9 c && leb c 13)

-- The digits of `n` in front of `out`, the last digit first.
emit : ℕ → ℕ → List ℕ → List ℕ
emit zero n out = out
emit (suc fuel) n out =
    let more = emit fuel (n / 10) ((b'0' + n % 10) ∷ out) in
    if ltb n 10 then (b'0' + n) ∷ out else more

pub print_nat : ℕ → List ℕ
unfolding emit
print_nat n = emit (n + 1) n []

unfoldable pub print_int : ℤ → List ℕ
unfolding print_nat
print_int (pos n) = print_nat n
print_int (negsuc n) = b'-' ∷ print_nat (suc n)

-- The digits in front of a text, as a number, and what follows them.
digits : ℕ → List ℕ → ℕ × List ℕ
digits acc [] = (acc, [])
digits acc (c ∷ s) = if is_digit c then digits (acc * 10 + (c - b'0')) s else (acc, c ∷ s)

unfoldable pub skip_space : List ℕ → List ℕ
skip_space [] = []
skip_space (c ∷ s) = if is_space c then skip_space s else c ∷ s

-- At least one digit.
unsigned : List ℕ → Option (ℕ × List ℕ)
unsigned [] = none
unsigned (c ∷ s) = if is_digit c then some (digits 0 (c ∷ s)) else none

negate : ℕ → ℤ
negate zero = pos zero
negate (suc n) = negsuc n

signed : List ℕ → Option (ℤ × List ℕ)
signed [] = none
signed (c ∷ s) =
    if c == b'-'
    then elim (unsigned s) [ none ↦ none | some (n, r) ↦ some (negate n, r) ]
    else if c == b'+'
    then elim (unsigned s) [ none ↦ none | some (n, r) ↦ some (pos n, r) ]
    else elim (unsigned (c ∷ s)) [ none ↦ none | some (n, r) ↦ some (pos n, r) ]

unfoldable pub scan_int : List ℕ → Option (ℤ × List ℕ)
unfolding skip_space is_space signed unsigned negate digits is_digit
scan_int s = signed (skip_space s)

-- What follows a number does not go on with a digit.
abbrev pub Ends : List ℕ → Type 0
Ends [] = Unit
Ends (c ∷ s) = (leb b'0' c && leb c b'9') ≡ false

digits-Ends : (n : ℕ) (s : List ℕ) → Ends s → digits n s ≡ (n, s)
unfolding digits is_digit
digits-Ends n [] h = refl
digits-Ends n (c ∷ s) h = rw h

digits-digit :
    (acc d m : ℕ) (s : List ℕ)
    → d < 10
    → acc * 10 + d ≡ m
    → digits acc ((b'0' + d) ∷ s) ≡ digits m s
unfolding digits is_digit
digits-digit acc d m s h e =
    let sub : b'0' + d - b'0' ≡ d = omega arith in
    let t : (leb b'0' (b'0' + d) && leb (b'0' + d) b'9') ≡ true = ground arith in rw (t, sub, e)

digits-emit : (fuel n : ℕ) (s : List ℕ) → n < fuel → digits 0 (emit fuel n s) ≡ digits n s
unfolding emit
digits-emit zero n s h = absurd (omega arith)
digits-emit (suc fuel) n s h = elim (Bool-cases (ltb n 10)) [
  | inl last ↦ rw last (digits-digit 0 n n s (ground arith) (omega arith))
  | inr more ↦ rw more (
      digits-emit fuel (n / 10) ((b'0' + n % 10) ∷ s) (ground arith)
      ∙ digits-digit (n / 10) (n % 10) n s (omega arith) (omega arith))
]

emit-append : (fuel n : ℕ) (out s : List ℕ) → emit fuel n out ++ s ≡ emit fuel n (out ++ s)
unfolding emit
emit-append zero n out s = refl
emit-append (suc fuel) n out s = ground (arith, emit-append fuel (n / 10) ((b'0' + n % 10) ∷ out) s)

-- A printed number begins with a digit.
emit_head :
    (fuel n : ℕ) (s : List ℕ)
    → n < fuel
    → (c : ℕ) × (r : List ℕ) × (emit fuel n s ≡ c ∷ r) × (is_digit c ≡ true)
unfolding emit is_digit
emit_head zero n s h = absurd (omega arith)
emit_head (suc fuel) n s h = elim (Bool-cases (ltb n 10)) [
  | inl last ↦ (b'0' + n, s, rw last, ground arith)
  | inr more ↦ rw more (emit_head fuel (n / 10) ((b'0' + n % 10) ∷ s) (ground arith))
]

digit_facts :
    (c : ℕ) → is_digit c ≡ true → (is_space c ≡ false) × (c == b'-' ≡ false) × (c == b'+' ≡ false)
unfolding is_digit is_space
digit_facts c h = ground arith

unsigned-digits :
    (c n : ℕ) (r s : List ℕ)
    → is_digit c ≡ true
    → digits 0 (c ∷ r) ≡ (n, s)
    → unsigned (c ∷ r) ≡ some (n, s)
unfolding unsigned
unsigned-digits c n r s d e = rw (d, e)

-- A printed number is a digit and more, and its digits are read back.
print_digits :
    (n : ℕ) (s : List ℕ)
    → Ends s
    → (c : ℕ) × (r : List ℕ) × (print_nat n ++ s ≡ c ∷ r)
      × (is_digit c ≡ true)
      × (digits 0 (c ∷ r) ≡ (n, s))
unfolding print_nat
print_digits n s h =
    let (c, r, e, d) = emit_head (n + 1) n s (omega arith) in
    (
      c,
      r,
      emit-append (n + 1) n [] s ∙ e,
      d,
      rw (← e) (digits-emit (n + 1) n s (omega arith) ∙ digits-Ends n s h),
    )

unsigned-print : (n : ℕ) (s : List ℕ) → Ends s → unsigned (print_nat n ++ s) ≡ some (n, s)
unsigned-print n s h =
    let (c, r, e, d, v) = print_digits n s h in rw e (unsigned-digits c n r s d v)

signed-digit :
    (c n : ℕ) (r s : List ℕ)
    → is_digit c ≡ true
    → unsigned (c ∷ r) ≡ some (n, s)
    → signed (c ∷ r) ≡ some (pos n, s)
unfolding signed
signed-digit c n r s d e = let (a, b, f) = digit_facts c d in rw (b, f, e)

signed-minus :
    (n : ℕ) (t s : List ℕ) → unsigned t ≡ some (suc n, s) → signed (b'-' ∷ t) ≡ some (negsuc n, s)
unfolding signed negate
signed-minus n t s e = rw e

skip_space_stop : (c : ℕ) (s : List ℕ) → is_space c ≡ false → skip_space (c ∷ s) ≡ c ∷ s
unfolding skip_space
skip_space_stop c s h = rw h

scan_int_lem : (s : List ℕ) → scan_int s ≡ signed (skip_space s)
unfolding scan_int
scan_int_lem s = refl

minus_no_space : is_space b'-' ≡ false
unfolding is_space
minus_no_space = refl

-- `%d` of scanf reads back what `%d` of printf wrote, whatever follows that is no digit.
pub scan_int-print_int : (z : ℤ) (s : List ℕ) → Ends s → scan_int (print_int z ++ s) ≡ some (z, s)
unfolding print_int
scan_int-print_int (pos n) s h =
    let (c, r, e, d, v) = print_digits n s h in
    rw (e, scan_int_lem, skip_space_stop c r (digit_facts c d).0)
      (signed-digit c n r s d (unsigned-digits c n r s d v))
scan_int-print_int (negsuc n) s h =
    let t = print_nat (suc n) ++ s in
    rw (scan_int_lem, skip_space_stop b'-' t minus_no_space)
      (signed-minus n t s (unsigned-print (suc n) s h))

pub scan_int_space : (s : List ℕ) → scan_int (b' ' ∷ s) ≡ scan_int s
unfolding scan_int
scan_int_space s = refl

-- A space in front of the number, and nothing behind it.
pub scan_int_last : (z : ℤ) → scan_int (b' ' ∷ print_int z) ≡ some (z, [])
scan_int_last z =
    scan_int_space (print_int z)
    ∙ ap scan_int (sym (append-nil (print_int z)))
    ∙ scan_int-print_int z [] tt

emit-All :
    (P : ℕ → Type 0)
    → ((d : ℕ) → d < 10 → P (b'0' + d))
    → (fuel n : ℕ) (out : List ℕ) → All P out
    → All P (emit fuel n out)
unfolding emit
emit-All P digit zero n out h = h
emit-All P digit (suc fuel) n out h = elim (Bool-cases (ltb n 10)) [
  | inl last ↦ rw last (digit n (ground arith), h)
  | inr more ↦
      rw more
        (emit-All P digit fuel (n / 10) ((b'0' + n % 10) ∷ out) (digit (n % 10) (omega arith), h))
]

-- No byte that printf writes for a number is below the minus sign.
pub print_int-All : (z : ℤ) → All (λ c. b'-' ≤ c) (print_int z)
unfolding print_int print_nat
print_int-All (pos n) = emit-All (λ c. b'-' ≤ c) (λ d h. omega arith) (n + 1) n [] tt
print_int-All (negsuc n) =
    (omega arith, emit-All (λ c. b'-' ≤ c) (λ d h. omega arith) (suc n + 1) (suc n) [] tt)

scan_int_cases :
    (scan_int (b' ' ∷ b'4' ∷ b'2' ∷ b' ' ∷ b'7' ∷ []) ≡ some (pos 42, b' ' ∷ b'7' ∷ []))
    × (scan_int (b'-' ∷ b'7' ∷ []) ≡ some (negsuc 6, []))
    × (scan_int (b'x' ∷ []) ≡ none)
unfolding scan_int
scan_int_cases = (refl, refl, refl)
