-- ===== src/AbonentList/Strings/Laws.antt =====
-- `my_strncpy` copies a text and cuts it to the size, and `my_strcmp` decides whether two texts are
-- the same.
use eltex_lessons.Base.{
  ℕ, zero, suc, ◌+◌, ◌-◌, ◌≤◌, ◌<◌, ◌≡◌, refl, ◌∙◌, ap, true, false, Option, none, some, [], ◌∷◌,
  ◌++◌, arith, ◌==◌, length, length-append, get_elem?, set, take, if◌then◌else◌, Bool-cases,
  Option-cases, inl, inr,
}
use eltex_lessons.Text.{Bytes, before, Without, same_text, before-Without}
use eltex_lessons.Text.Terminated.{before-append}
use eltex_lessons.AbonentList.Strings.{copy_loop, my_strncpy, compare_loop, my_strcmp, IsText}

add_one : (i : ℕ) → suc i + 1 ≡ suc (i + 1)
add_one i = omega arith

module _ (n i : ℕ) (dest src : Bytes) where
  copy_outside : get_elem? src i ≡ none → copy_loop (suc n) i dest src ≡ none
  unfolding copy_loop
  copy_outside e = rw (e, copy_loop)

  copy_nul :
      (c : ℕ)
      → get_elem? src i ≡ some c
      → (c == 0) ≡ true
      → copy_loop (suc n) i dest src ≡ some (set dest i 0)
  unfolding copy_loop
  copy_nul c e z = rw (e, copy_loop) (rw z)

  copy_byte :
      (c : ℕ)
      → get_elem? src i ≡ some c
      → (c == 0) ≡ false
      → copy_loop (suc n) i dest src ≡ copy_loop n (i + 1) (set dest i c) src
  unfolding copy_loop
  copy_byte c e z = rw (e, copy_loop) (rw z)

abbrev push : ℕ → Option Bytes → Option Bytes
push x none = none
push x (some out) = some (x ∷ out)

copy_loop-cons :
    (n i : ℕ) (x y : ℕ) (dest src : Bytes)
    → copy_loop n (suc i) (x ∷ dest) (y ∷ src) ≡ push x (copy_loop n i dest src)
copy_loop-cons zero i x y dest src = unfold copy_loop in refl
copy_loop-cons (suc n) i x y dest src = elim (Option-cases (get_elem? src i)) [
  | inl e ↦ rw (copy_outside n (suc i) (x ∷ dest) (y ∷ src) e, copy_outside n i dest src e)
  | inr (c, e) ↦ elim (Bool-cases (c == 0)) [
    | inl z ↦ rw (copy_nul n (suc i) (x ∷ dest) (y ∷ src) c e z, copy_nul n i dest src c e z)
    | inr z ↦
        rw (copy_byte n (suc i) (x ∷ dest) (y ∷ src) c e z, copy_byte n i dest src c e z, add_one i)
          (copy_loop-cons n (i + 1) x y (set dest i c) src)
  ]
]

compare_loop-cons :
    (n i x y : ℕ) (s t : Bytes) → compare_loop n (suc i) (x ∷ s) (y ∷ t) ≡ compare_loop n i s t
unfolding compare_loop
compare_loop-cons zero i x y s t = refl
compare_loop-cons (suc n) i x y s t = ground (arith, add_one i, compare_loop-cons n (i + 1) x y s t)

-- The buffer after the loop: the text as far as it fits, its NUL, and bytes that do not matter.
copy_loop_text :
    (n : ℕ) (dest src : Bytes)
    → n < length dest
    → IsText src
    → (rest : Bytes) × (copy_loop n 0 dest src ≡ some (take n (before 0 src) ++ 0 ∷ rest))
unfolding copy_loop before
copy_loop_text zero [] src lt h = absurd (omega arith)
copy_loop_text zero (x ∷ dest) src lt h = (dest, refl)
copy_loop_text (suc n) [] src lt h = absurd (omega arith)
copy_loop_text (suc n) (x ∷ dest) [] lt h = absurd (omega arith)
copy_loop_text (suc n) (x ∷ dest) (c ∷ src) lt h = elim (Bool-cases (c == 0)) [
  | inl z ↦ (dest, rw z)
  | inr z ↦
      let (rest, e) = copy_loop_text n dest src (omega arith) (tail_text z) in
      (rest, rw z (copy_loop-cons n 0 c c dest src ∙ ap (push c) e))
]
  where
    tail_text : (c == 0) ≡ false → IsText src
    tail_text z = ground arith

take-Without : (n : ℕ) (s : Bytes) → Without 0 s → Without 0 (take n s)
take-Without zero s h = tt
take-Without (suc n) [] h = tt
take-Without (suc n) (c ∷ s) h = (h.0, take-Without n s h.1)

length-before_zero :
    (s rest : Bytes) → Without 0 s → length (before 0 (s ++ 0 ∷ rest)) < length (s ++ 0 ∷ rest)
length-before_zero s rest h =
    rw (before-append s rest h) (omega (arith, length-append s (0 ∷ rest)))

-- `my_strncpy` of a text into a buffer of at least `size` bytes, with `size` positive: it is
-- defined, and leaves the text of the source, cut to `size - 1` bytes where it is longer, with
-- its NUL inside the buffer.
pub my_strncpy_lem :
    (dest src : Bytes) (size : ℕ)
    → 0 < size
    → size ≤ length dest
    → IsText src
    → (out : Bytes) × (my_strncpy dest src size ≡ some out)
      × (before 0 out ≡ take (size - 1) (before 0 src))
      × IsText out
unfolding my_strncpy
my_strncpy_lem dest src size pos_size fits h =
    let (rest, e) = copy_loop_text (size - 1) dest src (omega arith) h in
    let t = take (size - 1) (before 0 src) in
    let clean = take-Without (size - 1) (before 0 src) (before-Without 0 src) in
    (t ++ 0 ∷ rest, e, before-append t rest clean, length-before_zero t rest clean)

compare_loop_text :
    (n : ℕ) (s t : Bytes)
    → length (before 0 s) < n
    → IsText s
    → IsText t
    → compare_loop n 0 s t ≡ some (if same_text (before 0 s) (before 0 t) then 0 else 1)
unfolding compare_loop before same_text
compare_loop_text zero s t lt hs ht = absurd (omega arith)
compare_loop_text (suc n) [] t lt hs ht = absurd (omega arith)
compare_loop_text (suc n) (a ∷ s) [] lt hs ht = absurd (omega arith)
compare_loop_text (suc n) (a ∷ s) (b ∷ t) lt hs ht =
    ground (arith, compare_loop-cons n 0 a b s t, compare_loop_text n s t)

-- `my_strcmp` of two buffers with texts, the first of less than 128 bytes (its index is a `char`):
-- it is defined, 0 if the texts are the same and 1 if not.
pub my_strcmp_lem :
    (s t : Bytes)
    → length (before 0 s) < 128
    → IsText s
    → IsText t
    → my_strcmp s t ≡ some (if same_text (before 0 s) (before 0 t) then 0 else 1)
unfolding my_strcmp
my_strcmp_lem s t lt hs ht = compare_loop_text 128 s t lt hs ht
