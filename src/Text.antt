-- ===== src/Text.antt =====
-- C texts as lists of bytes: the calls of string.h and stdio.h that the programs make.
pub mod Decimal
pub mod Terminated
use Prim.Native.Char.{code}
use Prim.Native.String.{String}
use eltex_lessons.Base.{
  ℕ, zero, suc, ◌+◌, ◌≡◌, refl, Bool, true, false, ◌&&◌, List, [], ◌∷◌, ◌++◌, arith, ◌==◌,
  if◌then◌else◌,
}

abbrev pub Bytes : Type 0
Bytes = List ℕ

-- The bytes of an ASCII literal, without the closing NUL.
abbrev pub codes : String → Bytes
codes String.[] = []
codes (String.◌∷◌ c s) = code c ∷ codes s

-- The part before the first `stop`: `s[strcspn(s, "\n")] = 0` at `stop = '\n'`, and the text that
-- a buffer holds at `stop = '\0'`.
unfoldable pub before : ℕ → Bytes → Bytes
before stop [] = []
before stop (c ∷ s) = if c == stop then [] else c ∷ before stop s

-- `strcmp(s, t) == 0`
unfoldable pub same_text : Bytes → Bytes → Bool
same_text [] [] = true
same_text [] (d ∷ t) = false
same_text (c ∷ s) [] = false
same_text (c ∷ s) (d ∷ t) = c == d && same_text s t

-- `strncmp(s, prefix, strlen(prefix)) == 0`
unfoldable pub starts_with : Bytes → Bytes → Bool
starts_with [] s = true
starts_with (p ∷ prefix) [] = false
starts_with (p ∷ prefix) (c ∷ s) = p == c && starts_with prefix s

pub same_text-eq : (s t : Bytes) → same_text s t ≡ true → s ≡ t
unfolding same_text
same_text-eq [] [] h = refl
same_text-eq [] (d ∷ t) h = ground arith
same_text-eq (c ∷ s) [] h = ground arith
same_text-eq (c ∷ s) (d ∷ t) h = ground (arith, same_text-eq s t)

pub same_text_refl : (s : Bytes) → same_text s s ≡ true
unfolding same_text
same_text_refl [] = refl
same_text_refl (c ∷ s) = ground (arith, same_text_refl s)

pub starts_with-append : (p s : Bytes) → starts_with p (p ++ s) ≡ true
unfolding starts_with
starts_with-append [] s = refl
starts_with-append (c ∷ p) s = ground (arith, starts_with-append p s)

-- No byte of the text is `stop`.
abbrev pub Without : ℕ → Bytes → Type 0
Without stop [] = Unit
Without stop (c ∷ s) = (c == stop ≡ false) × Without stop s

pub before_of_Without : (stop : ℕ) (s : Bytes) → Without stop s → before stop s ≡ s
unfolding before
before_of_Without stop [] h = refl
before_of_Without stop (c ∷ s) h = ground (arith, before_of_Without stop s h.1)

pub before-Without : (stop : ℕ) (s : Bytes) → Without stop (before stop s)
unfolding before
before-Without stop [] = tt
before-Without stop (c ∷ s) = ground (arith, before-Without stop s)
