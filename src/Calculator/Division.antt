-- ===== src/Calculator/Division.antt =====
-- Calculator/div.c: the quotient, and when there is none.
use native.Mathlib.Nat.{div-add-mod', mod-lt, div-le_self, div-lt_self}
use eltex_lessons.Base.{
  ℕ, zero, suc, ◌+◌, ◌*◌, ◌/◌, ◌%◌, ◌≤◌, ◌<◌, ◌≡◌, ◌≢◌, refl, sym, ◌∙◌, ap, Bool, true, false,
  Option, none, some, arith, inl, inr, Bool-cases,
}
use eltex_lessons.Base.Int.{ℤ, pos, negsuc, ◌+ℤ◌, eq_ℤ, eq_ℤ→≡}
use eltex_lessons.Calculator.{
  minus, ◌*ℤ◌, ◌/ℤ◌, is_int, in_int, Printed, value, no_division, no_choice, div,
}

abbrev pub magnitude : ℤ → ℕ
magnitude (pos n) = n
magnitude (negsuc n) = suc n

-- `r` is zero or has the sign of `a`.
abbrev pub HasSignOf : ℤ → ℤ → Type 0
HasSignOf (pos a) r = r ≡ pos (magnitude r)
HasSignOf (negsuc a) r = r ≡ minus (magnitude r)

-- The outcome of the division of `a` by `b`.
abbrev pub Divided : ℤ → ℤ → Option Printed → Type 0
Divided a b none = (a ≡ negsuc 2147483647) × (b ≡ negsuc 0)
Divided a b (some (value q)) =
    (is_int q ≡ true) × ((r : ℤ) × (a ≡ q *ℤ b +ℤ r) × (magnitude r < magnitude b) × HasSignOf a r)
Divided a b (some no_division) = b ≡ pos 0
Divided a b (some no_choice) = ⊥

minus-mul-negsuc : (n b : ℕ) → minus n *ℤ negsuc b ≡ pos (n * suc b)
minus-mul-negsuc zero b = let e : 0 * suc b ≡ 0 = omega arith in ap minus e ∙ sym (ap pos e)
minus-mul-negsuc (suc n) b = refl

minus-mul-pos : (n b : ℕ) → minus n *ℤ pos b ≡ minus (n * b)
minus-mul-pos zero b = let e : 0 * b ≡ 0 = omega arith in ap pos e ∙ sym (ap minus e)
minus-mul-pos (suc n) b = refl

minus-add : (m n : ℕ) → minus m +ℤ minus n ≡ minus (m + n)
unfolding ◌+ℤ◌
minus-add zero zero = refl
minus-add zero (suc n) = let e : 0 + suc n ≡ suc n = omega arith in rw e (ground arith)
minus-add (suc m) zero = let e : suc m + 0 ≡ suc m = omega arith in rw e (ground arith)
minus-add (suc m) (suc n) =
    let e : suc m + suc n ≡ suc (m + suc n) = omega arith in rw e (ground arith)

pos-add : (m n : ℕ) → pos m +ℤ pos n ≡ pos (m + n)
unfolding ◌+ℤ◌
pos-add m n = ground arith

remainder : (a b : ℕ) → a / b * b + a % b ≡ a
remainder a b = div-add-mod' a b

magnitude-minus : (n : ℕ) → magnitude (minus n) ≡ n
magnitude-minus zero = refl
magnitude-minus (suc n) = refl

-- The remainder of the division of C.
abbrev remainder_of : ℤ → ℤ → ℤ
remainder_of (pos a) b = pos (a % magnitude b)
remainder_of (negsuc a) b = minus (suc a % magnitude b)

quotient : (a b : ℤ) → a ≡ (a /ℤ b) *ℤ b +ℤ remainder_of a b
quotient (pos a) (pos b) = ap pos (sym (remainder a b)) ∙ sym (pos-add (a / b * b) (a % b))
quotient (pos a) (negsuc b) =
    ap pos (sym (remainder a (suc b)))
    ∙ sym (pos-add (a / suc b * suc b) (a % suc b))
    ∙ ap (λ x. x +ℤ pos (a % suc b)) (sym (minus-mul-negsuc (a / suc b) b))
quotient (negsuc a) (pos b) =
    ap minus (sym (remainder (suc a) b))
    ∙ sym (minus-add (suc a / b * b) (suc a % b))
    ∙ ap (λ x. x +ℤ minus (suc a % b)) (sym (minus-mul-pos (suc a / b) b))
quotient (negsuc a) (negsuc b) =
    ap minus (sym (remainder (suc a) (suc b)))
    ∙ sym (minus-add (suc a / suc b * suc b) (suc a % suc b))

remainder-HasSignOf : (a b : ℤ) → HasSignOf a (remainder_of a b)
remainder-HasSignOf (pos a) b = refl
remainder-HasSignOf (negsuc a) b = ap minus (sym (magnitude-minus (suc a % magnitude b)))

true_not_false : {b : Bool} → b ≡ true → b ≡ false → ⊥
true_not_false e f = cc

magnitude_pos : (b : ℤ) → b ≢ pos 0 → 0 < magnitude b
magnitude_pos (pos zero) n = absurd (n refl)
magnitude_pos (pos (suc b)) n = omega arith
magnitude_pos (negsuc b) n = omega arith

remainder_lt : (a b : ℤ) → b ≢ pos 0 → magnitude (remainder_of a b) < magnitude b
remainder_lt (pos a) b n = mod-lt a (magnitude_pos b n)
remainder_lt (negsuc a) b n =
    rw (magnitude-minus (suc a % magnitude b)) (mod-lt (suc a) (magnitude_pos b n))

is_int-minus : (n : ℕ) → n ≤ 2147483648 → is_int (minus n) ≡ true
is_int-minus zero h = refl
is_int-minus (suc n) h = ground arith

overflow : (a b : ℤ) → is_int a ≡ true → is_int (a /ℤ b) ≡ false → Divided a b none
overflow (pos a) (pos b) ia e = absurd (ground (arith, div-le_self a b))
overflow (pos a) (negsuc b) ia e =
    let small : a / suc b ≤ 2147483648 = ground (arith, div-le_self a (suc b)) in
    absurd (true_not_false (is_int-minus (a / suc b) small) e)
overflow (negsuc a) (pos b) ia e =
    let small : suc a / b ≤ 2147483648 = ground (arith, div-le_self (suc a) b) in
    absurd (true_not_false (is_int-minus (suc a / b) small) e)
overflow (negsuc a) (negsuc zero) ia e =
    let least : a ≡ 2147483647 = ground (arith, div-le_self (suc a) 1) in (ap negsuc least, refl)
overflow (negsuc a) (negsuc (suc b)) ia e =
    let less : suc a / suc (suc b) < suc a = div-lt_self (omega arith) (omega arith) in
    absurd (ground arith)

-- The division of a number that an `int` holds: it reports a zero divisor, and nothing else as
-- one; it is undefined for the least `int` divided by -1 alone; and otherwise its result is an
-- `int`, the quotient for a remainder that is smaller than the divisor and has the sign of the
-- dividend.
pub div_lem : (a b : ℤ) → is_int a ≡ true → Divided a b (div a b)
unfolding div in_int
div_lem a b ia = elim (Bool-cases (eq_ℤ b (pos 0))) [
  | inl zero_divisor ↦ rw zero_divisor (eq_ℤ→≡ b (pos 0) zero_divisor)
  | inr some_divisor ↦
      let n : b ≢ pos 0 = λ e. true_not_false (ap (λ x. eq_ℤ x (pos 0)) e) some_divisor in
      elim (Bool-cases (is_int (a /ℤ b))) [
        | inl fits ↦
            rw (some_divisor, fits)
              (fits, (remainder_of a b, quotient a b, remainder_lt a b n, remainder-HasSignOf a b))
        | inr big ↦ rw (some_divisor, big) (overflow a b ia big)
      ]
]
