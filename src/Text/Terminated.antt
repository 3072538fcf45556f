-- ===== src/Text/Terminated.antt =====
-- A text in a buffer ends at its first NUL.
use eltex_lessons.Base.{ℕ, ◌≤◌, ◌<◌, ◌≡◌, [], ◌∷◌, ◌++◌, arith, All}
use eltex_lessons.Base.Int.{ℤ}
use eltex_lessons.Text.{Bytes, before, Without}
use eltex_lessons.Text.Decimal.{print_int, print_int-All}

Without-of_All : (stop : ℕ) (s : Bytes) → stop < b'-' → All (λ c. b'-' ≤ c) s → Without stop s
Without-of_All stop [] low h = tt
Without-of_All stop (c ∷ s) low h = (ground arith, Without-of_All stop s low h.1)

-- A printed number holds no NUL, no newline and no space.
pub print_int-Without_of_lt : (stop : ℕ) (z : ℤ) → stop < b'-' → Without stop (print_int z)
print_int-Without_of_lt stop z low = Without-of_All stop (print_int z) low (print_int-All z)

pub print_int-Without : (z : ℤ) → Without 0 (print_int z)
print_int-Without z = print_int-Without_of_lt 0 z (omega arith)

pub Without-append :
    (stop : ℕ) (s t : Bytes) → Without stop s → Without stop t → Without stop (s ++ t)
Without-append stop [] t hs ht = ht
Without-append stop (c ∷ s) t hs ht = (hs.0, Without-append stop s t hs.1 ht)

pub before-append_stop :
    (stop : ℕ) (s rest : Bytes) → Without stop s → before stop (s ++ stop ∷ rest) ≡ s
unfolding before
before-append_stop stop [] rest h = ground arith
before-append_stop stop (c ∷ s) rest h = ground (arith, before-append_stop stop s rest h.1)

pub before-append : (s rest : Bytes) → Without 0 s → before 0 (s ++ 0 ∷ rest) ≡ s
before-append s rest h = before-append_stop 0 s rest h
