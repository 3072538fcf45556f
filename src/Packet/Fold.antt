-- ===== src/Packet/Fold.antt =====
-- Folding keeps a sum modulo 65535.
use eltex_lessons.Base.{ℕ, ◌+◌, ◌*◌, ◌%◌, ◌<◌, ◌≡◌, some, arith}
use eltex_lessons.Packet.{complement, fold_twice, fold_loop}

-- The checksum of a sum, added to it, folds to all ones.
pub complement-fold_twice :
    (s : ℕ) → s < 65536 * 65535 → complement (fold_twice (s + complement (fold_twice s))) ≡ 0
unfolding fold_twice
complement-fold_twice s h = omega arith

-- A sum whose checksum is zero is zero modulo 65535, but not zero.
pub fold_twice-zero :
    (s : ℕ) → s < 65536 * 65535 → complement (fold_twice s) ≡ 0 → (s % 65535 ≡ 0) × (0 < s)
unfolding fold_twice
fold_twice-zero s h e = omega (arith, e)

-- Three rounds are enough.
pub fold_loop_lem : (s : ℕ) → s < 65536 * 65535 → fold_loop 3 s ≡ some (fold_twice s % 65536)
unfolding fold_loop fold_twice
fold_loop_lem s h = ground arith
