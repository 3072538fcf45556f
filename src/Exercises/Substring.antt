-- ===== src/Exercises/Substring.antt =====
-- Pointer/point4.c: the search for a substring. The texts are those that fgets has read, up to
-- their NUL; the one that is searched for may end in a newline, which is left out of the
-- comparison.
use eltex_lessons.Base.{
  ℕ, suc, ◌+◌, ◌≤◌, ◌≡◌, ◌≢◌, refl, sym, ◌∙◌, ap, Bool, true, false, Option, none, some, [], ◌∷◌,
  ◌++◌, arith, ◌==◌, length, if◌then◌else◌, Bool-cases, inl, inr,
}
use eltex_lessons.Text.{Bytes, before}

-- The inner loop: does the text start with the other one?
unfoldable pub text_at : Bytes → Bytes → Bool
text_at s [] = true
text_at [] (c ∷ sub) = if c == 10 then true else false
text_at (d ∷ s) (c ∷ sub) =
    let rest = text_at s sub in if c == 10 then true else if d == c then rest else false

-- The outer loop, from index `i` on: `ptr`, as an index and as the text from there.
unfoldable pub find_substring : ℕ → Bytes → Bytes → Option (ℕ × Bytes)
find_substring i [] sub = none
find_substring i (c ∷ s) sub =
    let rest = find_substring (i + 1) s sub in if text_at (c ∷ s) sub then some (i, c ∷ s) else rest

-- `ptr` is at the first place where the text `p` stands in `s`, or NULL where it stands nowhere.
pub data IsFirst (i : ℕ) (s p : Bytes) : Option (ℕ × Bytes) → Type 0 where
  nowhere : ((a b : Bytes) → a ++ (p ++ b) ≢ s) → IsFirst i s p none
  first :
      (a b ptr : Bytes) (j : ℕ)
      → s ≡ a ++ ptr
      → ptr ≡ p ++ b
      → j ≡ i + length a
      → ((a' b' : Bytes) → a' ++ (p ++ b') ≡ s → length a ≤ length a')
      → IsFirst i s p (some (j, ptr))

text_at_stop : (s : Bytes) (c : ℕ) (sub : Bytes) → (c == 10) ≡ true → text_at s (c ∷ sub) ≡ true
unfolding text_at
text_at_stop [] c sub h = rw h refl
text_at_stop (d ∷ s) c sub h = rw h refl

text_at_next :
    (d : ℕ) (s sub : Bytes) → (d == 10) ≡ false → text_at (d ∷ s) (d ∷ sub) ≡ text_at s sub
unfolding text_at
text_at_next d s sub h = ground arith

before_more : (c : ℕ) (sub : Bytes) → (c == 10) ≡ false → before 10 (c ∷ sub) ≡ c ∷ before 10 sub
unfolding before
before_more c sub h = rw h refl

text_at-append : (sub b : Bytes) → text_at (before 10 sub ++ b) sub ≡ true
text_at-append [] b = unfold text_at in refl
text_at-append (c ∷ sub) b = elim (Bool-cases (c == 10)) [
  | inl stop ↦ text_at_stop (before 10 (c ∷ sub) ++ b) c sub stop
  | inr more ↦
      ap (λ s. text_at (s ++ b) (c ∷ sub)) (before_more c sub more)
      ∙ text_at_next c (before 10 sub ++ b) sub more
      ∙ text_at-append sub b
]

text_at_miss :
    (d : ℕ) (s : Bytes) (c : ℕ) (sub : Bytes)
    → text_at (d ∷ s) (c ∷ sub) ≡ true
    → (c == 10) ≡ false
    → (d ≡ c) × (text_at s sub ≡ true)
unfolding text_at
text_at_miss d s c sub h more = ground arith

text_at_stops : (c : ℕ) (sub : Bytes) → text_at [] (c ∷ sub) ≡ true → (c == 10) ≡ true
unfolding text_at
text_at_stops c sub h = ground arith

text_at-split : (s sub : Bytes) → text_at s sub ≡ true → (b : Bytes) × (s ≡ before 10 sub ++ b)
text_at-split s [] h = unfold before in (s, refl)
text_at-split [] (c ∷ sub) h = unfold before in ([], rw (text_at_stops c sub h) refl)
text_at-split (d ∷ s) (c ∷ sub) h = elim (Bool-cases (c == 10)) [
  | inl stop ↦ (d ∷ s, unfold before in rw stop refl)
  | inr more ↦
      let (same, below) = text_at_miss d s c sub h more in
      let (b, e) = text_at-split s sub below in
      (
        b,
        ap (λ x. x ∷ s) same ∙ ap (λ r. c ∷ r) e ∙ ap (λ r. r ++ b) (sym (before_more c sub more)),
      )
]

not_here : (s sub : Bytes) → text_at s sub ≡ false → (b : Bytes) → before 10 sub ++ b ≢ s
not_here s sub miss b = λ e.
    let hit : text_at s sub ≡ true = ap (λ t. text_at t sub) (sym e) ∙ text_at-append sub b in cc

-- A text that does not start at the first byte starts behind it.
one_further :
    (c : ℕ) (s p : Bytes)
    → ((b : Bytes) → p ++ b ≢ c ∷ s)
    → (a b : Bytes) → a ++ (p ++ b) ≡ c ∷ s
    → (a' : Bytes) × (length a ≡ suc (length a')) × (a' ++ (p ++ b) ≡ s)
one_further c s p none_here [] b e = absurd (none_here b e)
one_further c s p none_here (x ∷ a) b e = (a, refl, cc)

suc-IsFirst :
    (i c : ℕ) (s p : Bytes) (r : Option (ℕ × Bytes))
    → ((b : Bytes) → p ++ b ≢ c ∷ s)
    → IsFirst (i + 1) s p r
    → IsFirst i (c ∷ s) p r
suc-IsFirst i c s p none none_here (nowhere none_in) =
    nowhere (λ a b e. let (a', k, f) = one_further c s p none_here a b e in none_in a' b f)
suc-IsFirst i c s p (some q) none_here (first a b ptr j e f k least) =
    first (c ∷ a) b ptr j (ap (λ r. c ∷ r) e) f (omega (arith, k)) (λ a' b' g.
      let (x, l, h) = one_further c s p none_here a' b' g in omega (arith, l, least x b' h))

IsFirst_here :
    (i c : ℕ) (s sub : Bytes)
    → text_at (c ∷ s) sub ≡ true
    → IsFirst i (c ∷ s) (before 10 sub) (find_substring i (c ∷ s) sub)
unfolding find_substring
IsFirst_here i c s sub hit =
    let (b, e) = text_at-split (c ∷ s) sub hit in
    rw hit (first [] b (c ∷ s) i refl e (omega arith) (λ a' b' g. omega arith))

IsFirst_later :
    (i c : ℕ) (s sub : Bytes)
    → text_at (c ∷ s) sub ≡ false
    → IsFirst (i + 1) s (before 10 sub) (find_substring (i + 1) s sub)
    → IsFirst i (c ∷ s) (before 10 sub) (find_substring i (c ∷ s) sub)
unfolding find_substring
IsFirst_later i c s sub miss later = rw miss (
    suc-IsFirst i c s (before 10 sub) (find_substring (i + 1) s sub) (not_here (c ∷ s) sub miss)
      later)

append_nonempty : (a p b : Bytes) → p ≢ [] → a ++ (p ++ b) ≢ []
append_nonempty [] [] b h = absurd (h refl)
append_nonempty [] (c ∷ p) b h = λ e. cc
append_nonempty (x ∷ a) p b h = λ e. cc

IsFirst_from :
    (i : ℕ) (s sub : Bytes)
    → before 10 sub ≢ []
    → IsFirst i s (before 10 sub) (find_substring i s sub)
IsFirst_from i [] sub h =
    unfold find_substring in nowhere (λ a b. append_nonempty a (before 10 sub) b h)
IsFirst_from i (c ∷ s) sub h = elim (Bool-cases (text_at (c ∷ s) sub)) [
  | inl hit ↦ IsFirst_here i c s sub hit
  | inr miss ↦ IsFirst_later i c s sub miss (IsFirst_from (i + 1) s sub h)
]

-- The search finds the first place at which the text in `substr`, up to its newline, stands in
-- `str`, and NULL where it stands nowhere; `str` holds at least one byte.
pub find_substring_lem :
    (c : ℕ) (s sub : Bytes) → IsFirst 0 (c ∷ s) (before 10 sub) (find_substring 0 (c ∷ s) sub)
find_substring_lem c s sub = elim (Bool-cases (text_at (c ∷ s) sub)) [
  | inl hit ↦ IsFirst_here 0 c s sub hit
  | inr miss ↦
      IsFirst_from 0 (c ∷ s) sub (λ e. not_here (c ∷ s) sub miss (c ∷ s) (ap (λ p. p ++ (c ∷ s)) e))
]
