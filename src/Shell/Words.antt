-- ===== src/Shell/Words.antt =====
-- Texts made of words and spaces: what `trim` and `parse_arguments` make of them.
use eltex_lessons.Base.{
  ℕ, zero, suc, ◌+◌, ◌<◌, ◌≡◌, ◌≢◌, refl, ◌∙◌, ap, sym, false, some, List, [], ◌∷◌, ◌++◌, arith,
  ◌==◌, All, map, length, length-append, length-replicate, get_or, get_or-append,
  get_or-append_left, take, take-append, replicate,
}
use mathlib.Core.List.{append-nil}
use eltex_lessons.Text.{Bytes, before, Without, before_of_Without}
use eltex_lessons.Text.Terminated.{before-append_stop}
use eltex_lessons.Shell.{
  space, skip_spaces, end_loop, cut_spaces, trim, behind, next_token, parse_loop, parse_arguments,
}

abbrev pub spaces : ℕ → Bytes
spaces n = replicate n space

pub skip_spaces-spaces : (n : ℕ) (s : Bytes) → skip_spaces (spaces n ++ s) ≡ skip_spaces s
unfolding skip_spaces
skip_spaces-spaces zero s = refl
skip_spaces-spaces (suc n) s = skip_spaces-spaces n s

skip_spaces_only : (n : ℕ) → skip_spaces (spaces n) ≡ []
unfolding skip_spaces
skip_spaces_only zero = refl
skip_spaces_only (suc n) = skip_spaces_only n

skip_spaces_word : (c : ℕ) (s : Bytes) → (c == space) ≡ false → skip_spaces (c ∷ s) ≡ c ∷ s
unfolding skip_spaces
skip_spaces_word c s h = rw h

get_or-spaces : (n i : ℕ) → i < n → get_or (spaces n) i 0 ≡ space
get_or-spaces zero i h = absurd (omega arith)
get_or-spaces (suc n) zero h = refl
get_or-spaces (suc n) (suc i) h = get_or-spaces n i (omega arith)

-- The loop walks back over `b` spaces to the byte at `k`, which is none, or to the start.
end_loop_lem :
    (k b : ℕ) (s : Bytes)
    → (get_or s k 0 == space) ≡ false
    → ((i : ℕ) → i < b → get_or s (k + 1 + i) 0 ≡ space)
    → end_loop (k + b) s ≡ k
unfolding end_loop
end_loop_lem zero zero s stop gap = refl
end_loop_lem (suc k) zero s stop gap = let same : suc k + 0 ≡ suc k = omega arith in rw (same, stop)
end_loop_lem k (suc b) s stop gap =
    let step : k + suc b ≡ suc (k + b) = omega arith in
    let here : get_or s (suc (k + b)) 0 ≡ space =
      ap (λ i. get_or s i 0) (omega arith) ∙ gap b (omega arith) in
    rw (step, here) (end_loop_lem k b s stop (λ i h. gap i (omega arith)))

-- A text whose first and last bytes are no spaces.
pub record IsTrimmed (c : ℕ) (s : Bytes) : Type 0 where
  pub first : (c == space) ≡ false
  pub last : (get_or (c ∷ s) (length s) 0 == space) ≡ false

-- `trim` takes off the spaces around a text that begins and ends with other bytes, and makes a text
-- of spaces empty.
pub trim_lem :
    (a b c : ℕ) (s : Bytes)
    → IsTrimmed c s
    → (trim (spaces a ++ ((c ∷ s) ++ spaces b)) ≡ c ∷ s) × (trim (spaces a) ≡ [])
unfolding trim
trim_lem a b c s h =
    let t = (c ∷ s) ++ spaces b in
    let size : length (s ++ spaces b) ≡ length s + b =
      omega (arith, length-append s (spaces b), length-replicate b space) in
    let stop : (get_or t (length s) 0 == space) ≡ false =
      rw (get_or-append_left (c ∷ s) (spaces b) (length s) 0 (omega arith)) h.last in
    let gap : (i : ℕ) → i < b → get_or t (length s + 1 + i) 0 ≡ space = λ i lt.
      ap (λ k. get_or t k 0) (omega arith)
      ∙ get_or-append (c ∷ s) (spaces b) i 0
      ∙ get_or-spaces b i lt in
    let kept : end_loop (length (s ++ spaces b)) t + 1 ≡ length (c ∷ s) =
      ap (λ k. end_loop k t + 1) size
      ∙ ap (λ k. k + 1) (end_loop_lem (length s) b t stop gap)
      ∙ omega arith in
    (
      ap cut_spaces (skip_spaces-spaces a t ∙ skip_spaces_word c (s ++ spaces b) h.first)
          ∙ ap (λ k. take k t) kept
          ∙ take-append (c ∷ s) (spaces b),
      ap cut_spaces (skip_spaces_only a),
    )

-- A word has a byte, and no space.
abbrev pub IsWord : Bytes → Type 0
IsWord w = (w ≢ []) × Without space w

-- Words behind gaps of at least one space each (`suc k` spaces in front of a word), and `t` spaces
-- at the end.
abbrev pub gaps : List (ℕ × Bytes) → ℕ → Bytes
gaps [] t = spaces t
gaps ((k, w) ∷ ps) t = space ∷ (spaces k ++ (w ++ gaps ps t))

abbrev pub words : List (ℕ × Bytes) → List Bytes
words ps = map (λ p. p.1) ps

abbrev pub AreWords : List (ℕ × Bytes) → Type 0
AreWords ps = All (λ p. IsWord p.1) ps

next_token-space : (s : Bytes) → next_token (space ∷ s) ≡ next_token s
unfolding next_token skip_spaces
next_token-space s = refl

next_token-spaces : (n : ℕ) (s : Bytes) → next_token (spaces n ++ s) ≡ next_token s
unfolding next_token
next_token-spaces n s = rw (skip_spaces-spaces n s, next_token)

parse_loop-space : (n : ℕ) (s : Bytes) → parse_loop n (space ∷ s) ≡ parse_loop n s
unfolding parse_loop
parse_loop-space zero s = refl
parse_loop-space (suc n) s = rw (next_token-space s, parse_loop)

pub parse_loop-spaces : (n k : ℕ) (s : Bytes) → parse_loop n (spaces k ++ s) ≡ parse_loop n s
unfolding parse_loop
parse_loop-spaces zero k s = refl
parse_loop-spaces (suc n) k s = rw (next_token-spaces k s, parse_loop)

behind_word : (w s : Bytes) → Without space w → behind space (w ++ space ∷ s) ≡ s
unfolding behind
behind_word [] s h = refl
behind_word (c ∷ w) s h = rw h.0 (behind_word w s h.1)

behind_end : (w : Bytes) → Without space w → behind space w ≡ []
unfolding behind
behind_end [] h = refl
behind_end (c ∷ w) h = rw h.0 (behind_end w h.1)

-- A word and what follows it, which is nothing or begins with a space.
data Follows : Bytes → Type 0 where
  at_end : Follows []
  at_space : (s : Bytes) → Follows (space ∷ s)

gaps-Follows : (ps : List (ℕ × Bytes)) (t : ℕ) → Follows (gaps ps t)
gaps-Follows [] zero = at_end
gaps-Follows [] (suc t) = at_space (spaces t)
gaps-Follows ((k, w) ∷ ps) t = at_space (spaces k ++ (w ++ gaps ps t))

next_token_text :
    (c : ℕ) (s : Bytes)
    → (c == space) ≡ false
    → next_token (c ∷ s) ≡ some (before space (c ∷ s), behind space (c ∷ s))
unfolding next_token
next_token_text c s h = rw (skip_spaces_word c s h, next_token)

parse_loop_word :
    (n : ℕ) (w : Bytes) {s : Bytes}
    → IsWord w
    → Follows s
    → parse_loop (suc n) (w ++ s) ≡ w ∷ parse_loop n s
unfolding parse_loop
parse_loop_word n [] h f = absurd (h.0 refl)
parse_loop_word n (c ∷ w) h at_end = rw (append-nil (c ∷ w)) (
    rw (next_token_text c w h.1.0, parse_loop)
      (rw (before_of_Without space (c ∷ w) h.1, behind_end (c ∷ w) h.1)))
parse_loop_word n (c ∷ w) h (at_space s) =
    rw (next_token_text c (w ++ space ∷ s) h.1.0, parse_loop)
      (rw (before-append_stop space (c ∷ w) s h.1, behind_word (c ∷ w) s h.1, parse_loop-space n s))

parse_nothing : (n : ℕ) → parse_loop n [] ≡ []
unfolding parse_loop next_token skip_spaces
parse_nothing zero = refl
parse_nothing (suc n) = refl

parse_loop-gaps :
    (n : ℕ) (ps : List (ℕ × Bytes)) (t : ℕ)
    → AreWords ps
    → parse_loop n (gaps ps t) ≡ take n (words ps)
parse_loop-gaps zero ps t h = unfold parse_loop in refl
parse_loop-gaps (suc n) [] t h = only_spaces (suc n) t
  where
    only_spaces : (n t : ℕ) → parse_loop n (spaces t) ≡ []
    only_spaces n t =
        ap (parse_loop n) (sym (append-nil (spaces t))) ∙ parse_loop-spaces n t [] ∙ parse_nothing n
parse_loop-gaps (suc n) ((k, w) ∷ ps) t (hw, hs) =
    parse_loop-space (suc n) (spaces k ++ (w ++ gaps ps t))
    ∙ parse_loop-spaces (suc n) k (w ++ gaps ps t)
    ∙ parse_loop_word n w hw (gaps-Follows ps t)
    ∙ ap (λ r. w ∷ r) (parse_loop-gaps n ps t hs)

-- `parse_arguments` of words with any gaps between them, and any spaces in front and behind: the
-- words in order, without the gaps, and the first 63 of them where there are more.
pub parse_arguments_lem :
    (a t : ℕ) (w : Bytes) (ps : List (ℕ × Bytes))
    → IsWord w
    → AreWords ps
    → parse_arguments (spaces a ++ (w ++ gaps ps t)) ≡ take 63 (w ∷ words ps)
unfolding parse_arguments
parse_arguments_lem a t w ps hw hs =
    parse_loop-spaces 63 a (w ++ gaps ps t)
    ∙ parse_loop_word 62 w hw (gaps-Follows ps t)
    ∙ ap (λ r. w ∷ r) (parse_loop-gaps 62 ps t hs)
