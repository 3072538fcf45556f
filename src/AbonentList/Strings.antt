-- ===== src/AbonentList/Strings.antt =====
-- The string routines of AbonentList: `my_strncpy` (add.c) and `my_strcmp` (search.c), over
-- buffers of bytes. A read outside a buffer is not defined in C, and is `none` here.
pub mod Laws
use eltex_lessons.Base.{
  ℕ, zero, suc, ◌+◌, ◌-◌, ◌≤◌, ◌<◌, ◌≡◌, refl, ◌∙◌, ap, Bool, true, false, ◌&&◌, Option, none, some,
  List, [], ◌∷◌, ◌++◌, arith, ◌==◌, length, get_elem?, set, take, drop, length-set, if◌then◌else◌,
  Bool-cases, inl, inr,
}
use eltex_lessons.Text.{Bytes, before, same_text}

-- The loop from index `i` on; `n` rounds are left before `i` is `size - 1`.
copy_loop : ℕ → ℕ → Bytes → Bytes → Option Bytes
copy_loop zero i dest src = some (set dest i 0)
copy_loop (suc n) i dest src = elim (get_elem? src i) [
  | none ↦ none
  | some c ↦
      let rest = copy_loop n (i + 1) (set dest i c) src in
      if c == 0 then some (set dest i 0) else rest
]

unfoldable pub my_strncpy : Bytes → Bytes → ℕ → Option Bytes
unfolding copy_loop
my_strncpy dest src size = copy_loop (size - 1) 0 dest src

-- The loop from index `i` on. The index is a `char`: after 127 it is -128, and the next read is
-- outside of both buffers. `n` is 128 - i.
compare_loop : ℕ → ℕ → Bytes → Bytes → Option ℕ
compare_loop zero i s t = none
compare_loop (suc n) i s t = elim (get_elem? s i) [
  | none ↦ none
  | some a ↦ elim (get_elem? t i) [
    | none ↦ none
    | some b ↦
        let rest = compare_loop n (i + 1) s t in
        if a == 0 && b == 0 then some 0 else if a == b then rest else some 1
  ]
]

unfoldable pub my_strcmp : Bytes → Bytes → Option ℕ
unfolding compare_loop
my_strcmp s t = compare_loop 128 0 s t

-- A buffer that holds a text: it has a NUL.
abbrev pub IsText : Bytes → Type 0
IsText s = length (before 0 s) < length s
