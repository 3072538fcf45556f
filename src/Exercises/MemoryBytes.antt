-- ===== src/Exercises/MemoryBytes.antt =====
-- Pointer/point.c: an `int` of four bytes, the lowest first, one of which is overwritten.
use eltex_lessons.Base.{
  ℕ, zero, suc, ◌+◌, ◌-◌, ◌*◌, ◌/◌, ◌%◌, ◌<◌, ◌≡◌, ◌∙◌, ap, Option, none, some, List, [], ◌∷◌,
  arith, ltb, true, set, map, if◌then◌else◌,
}
use eltex_lessons.Base.Int.{ℤ, pos, negsuc}
use eltex_lessons.Exercises.Bits.{int_bits}

-- The first `k` bytes of a number in memory, and the number that bytes in memory stand for.
abbrev pub bytes_of : ℕ → ℕ → List ℕ
bytes_of zero w = []
bytes_of (suc k) w = w % 256 ∷ bytes_of k (w / 256)

abbrev pub of_bytes : List ℕ → ℕ
of_bytes [] = 0
of_bytes (b ∷ bs) = b + 256 * of_bytes bs

-- A byte read through a `char *`, where `char` is signed.
abbrev pub char_value : ℕ → ℤ
char_value b = if ltb b 128 then pos b else negsuc (255 - b)

-- An `int` of the given bits.
abbrev pub int_value : ℕ → ℤ
int_value w = if ltb w 2147483648 then pos w else negsuc (4294967295 - w)

-- The four bytes that are shown.
abbrev pub shown : ℕ → List ℤ
shown w = map char_value (bytes_of 4 w)

-- The bits of the number after `*ptr = new_byte` with `ptr` at the second byte.
unfoldable pub put_byte : ℕ → ℤ → ℕ
put_byte w new_byte = of_bytes (set (bytes_of 4 w) 1 (int_bits new_byte % 256))

-- The program: `none` for a negative number; or the bytes, the new number and its bytes.
unfoldable pub change_byte : ℤ → ℤ → Option (List ℤ × ℤ × List ℤ)
change_byte (negsuc n) new_byte = none
change_byte (pos n) new_byte = let w = put_byte n new_byte in some (shown n, int_value w, shown w)

put_byte_eq :
    (n : ℕ) (b : ℤ)
    → n < 2147483648
    → put_byte n b ≡ n % 256 + 256 * (int_bits b % 256 + 256 * (n / 256 / 256))
unfolding put_byte
put_byte_eq n b h = omega arith

-- The bytes of what is put together from them.
put_together :
    (a b c : ℕ) → a < 256 → b < 256 → bytes_of 4 (a + 256 * (b + 256 * c)) ≡ a ∷ b ∷ bytes_of 2 c
put_together a b c ha hb =
    let x = a + 256 * (b + 256 * c) in
    let low : x % 256 ≡ a = omega arith in
    let high : x / 256 ≡ b + 256 * c = omega arith in
    let low2 : (b + 256 * c) % 256 ≡ b = omega arith in
    let high2 : (b + 256 * c) / 256 ≡ c = omega arith in
    ap (λ r. r ∷ bytes_of 3 (x / 256)) low
    ∙ ap (λ w. a ∷ bytes_of 3 w) high
    ∙ ap (λ r. a ∷ r ∷ bytes_of 2 ((b + 256 * c) / 256)) low2
    ∙ ap (λ w. a ∷ b ∷ bytes_of 2 w) high2

-- The number that is read is not negative and fits into an `int`: of its four bytes exactly the
-- second is changed, and becomes the lowest byte of the number that was typed. The new number is
-- not negative, and its bytes are those that are shown.
pub change_byte_lem :
    (n : ℕ) (b : ℤ)
    → n < 2147483648
    → (m : ℕ) × (change_byte (pos n) b
        ≡ some (shown n, pos m, set (shown n) 1 (char_value (int_bits b % 256))))
      × (bytes_of 4 m ≡ set (bytes_of 4 n) 1 (int_bits b % 256))
change_byte_lem n b h = (m, run, kept)
  where
    low : ℕ
    low = int_bits b % 256

    m : ℕ
    m = n % 256 + 256 * (low + 256 * (n / 256 / 256))

    kept : bytes_of 4 m ≡ set (bytes_of 4 n) 1 low
    kept = put_together (n % 256) low (n / 256 / 256) (omega arith) (omega arith)

    small : (ltb m 2147483648) ≡ true
    small = ground arith

    run : change_byte (pos n) b ≡ some (shown n, pos m, set (shown n) 1 (char_value low))
    run =
        unfold change_byte in
        ap (λ w. some (shown n, int_value w, shown w)) (put_byte_eq n b h)
        ∙ ap (λ t. some (shown n, (if t then pos m else negsuc (4294967295 - m)), shown m)) small
        ∙ ap (λ bs. some (shown n, pos m, map char_value bs)) kept
