-- ===== src/Shell/Lines.antt =====
-- What `main` of BushFix makes of a typed line.
use eltex_lessons.Base.{
  ℕ, ◌≡◌, refl, ◌∙◌, ap, sym, true, false, List, [], ◌∷◌, ◌++◌, arith, ◌==◌, length, get_or, take,
  Bool-cases, inl, inr,
}
use mathlib.Core.Path.{subst}
use mathlib.Core.List.{append-nil, append_assoc}
use eltex_lessons.Text.{Bytes, codes, Without, same_text, same_text-eq}
use eltex_lessons.Text.Terminated.{before-append_stop, Without-append}
use eltex_lessons.Shell.{
  space, pipe_sign, trim, behind, parse_arguments, remove_newline, has_byte, piped, read_line,
}
use eltex_lessons.Shell.Words.{
  spaces, IsTrimmed, trim_lem, IsWord, gaps, words, AreWords, parse_arguments_lem,
}

-- A typed command: `a` spaces, a first word, further words behind gaps, and `t` spaces.
pub record Phrase : Type 0 where
  pub indent : ℕ
  pub first : Bytes
  pub others : List (ℕ × Bytes)
  pub tail : ℕ

abbrev pub text : Phrase → Bytes
text p = spaces p.indent ++ (p.first ++ gaps p.others p.tail)

-- The arguments that a command is run with: its first 63 words.
abbrev pub arguments : Phrase → List Bytes
arguments p = take 63 (p.first ∷ words p.others)

abbrev pub IsPhrase : Phrase → Type 0
IsPhrase p = IsWord p.first × AreWords p.others × Without pipe_sign (text p) × Without 10 (text p)

last_byte : ℕ → Bytes → ℕ
last_byte c [] = c
last_byte c (d ∷ s) = last_byte d s

last_byte-get_or : (c : ℕ) (s : Bytes) → get_or (c ∷ s) (length s) 0 ≡ last_byte c s
unfolding last_byte
last_byte-get_or c [] = refl
last_byte-get_or c (d ∷ s) = last_byte-get_or d s

last_byte-append : (c d : ℕ) (s t : Bytes) → last_byte c (s ++ d ∷ t) ≡ last_byte d t
unfolding last_byte
last_byte-append c d [] t = refl
last_byte-append c d (e ∷ s) t = last_byte-append e d s t

last_byte_word : (c : ℕ) (w : Bytes) → Without space (c ∷ w) → (last_byte c w == space) ≡ false
unfolding last_byte
last_byte_word c [] h = h.0
last_byte_word c (d ∷ w) h = last_byte_word d w h.1

last_byte-gaps :
    (c : ℕ) (w : Bytes) (ps : List (ℕ × Bytes))
    → Without space (c ∷ w)
    → AreWords ps
    → (last_byte c (w ++ gaps ps 0) == space) ≡ false
last_byte-gaps c w [] h hs = rw (append-nil w) (last_byte_word c w h)
last_byte-gaps c w ((k, []) ∷ ps) h hs = absurd (hs.0.0 refl)
last_byte-gaps c w ((k, d ∷ v) ∷ ps) h hs =
    rw
      (
        last_byte-append c space w (spaces k ++ (d ∷ v ++ gaps ps 0)),
        last_byte-append space d (spaces k) (v ++ gaps ps 0),
      )
      (last_byte-gaps d v ps hs.0.1 hs.1)

gaps_tail : (ps : List (ℕ × Bytes)) (t : ℕ) → gaps ps t ≡ gaps ps 0 ++ spaces t
gaps_tail [] t = refl
gaps_tail ((k, w) ∷ ps) t =
    ap (λ r. space ∷ r)
      (ap (λ r. spaces k ++ (w ++ r)) (gaps_tail ps t)
        ∙ ap (λ r. spaces k ++ r) (sym (append_assoc w (gaps ps 0) (spaces t)))
        ∙ sym (append_assoc (spaces k) (w ++ gaps ps 0) (spaces t)))

trim_phrase : (p : Phrase) → IsPhrase p → parse_arguments (trim (text p)) ≡ arguments p
trim_phrase p h = by_first p.first refl
  where
    by_first : (w : Bytes) → p.first ≡ w → parse_arguments (trim (text p)) ≡ arguments p
    by_first [] e = absurd (h.0.0 e)
    by_first (c ∷ w) e =
        let clean : IsWord (c ∷ w) = subst IsWord e h.0 in
        let core = w ++ gaps p.others 0 in
        let trimmed : IsTrimmed c core = record {
          first = clean.1.0;
          last = rw (last_byte-get_or c core) (last_byte-gaps c w p.others clean.1 h.1);
        } in
        let shape : text p ≡ spaces p.indent ++ ((c ∷ core) ++ spaces p.tail) =
          ap (λ r. spaces p.indent ++ (r ++ gaps p.others p.tail)) e
          ∙ ap (λ r. spaces p.indent ++ ((c ∷ w) ++ r)) (gaps_tail p.others p.tail)
          ∙ ap (λ r. spaces p.indent ++ r)
              (sym (append_assoc (c ∷ w) (gaps p.others 0) (spaces p.tail))) in
        ap (λ s. parse_arguments (trim s)) shape
        ∙ ap parse_arguments (trim_lem p.indent p.tail c core trimmed).0
        ∙ parse_arguments_lem 0 0 (c ∷ w) p.others clean h.1
        ∙ ap (λ r. take 63 (r ∷ words p.others)) (sym e)

behind-append : (stop : ℕ) (s t : Bytes) → Without stop s → behind stop (s ++ stop ∷ t) ≡ t
unfolding behind
behind-append stop [] t h = ground arith
behind-append stop (c ∷ s) t h = rw h.0 (behind-append stop s t h.1)

has_byte-append : (c : ℕ) (s t : Bytes) → has_byte c (s ++ c ∷ t) ≡ true
unfolding has_byte
has_byte-append c [] t = ground arith
has_byte-append c (d ∷ s) t = ground (arith, has_byte-append c s t)

has_byte_none : (c : ℕ) (s : Bytes) → Without c s → has_byte c s ≡ false
unfolding has_byte
has_byte_none c [] h = refl
has_byte_none c (d ∷ s) h = rw h.0 (has_byte_none c s h.1)

not_exit : (s : Bytes) → has_byte pipe_sign s ≡ true → same_text s (codes "exit") ≡ false
not_exit s h = elim (Bool-cases (same_text s (codes "exit"))) [
  | inr other ↦ other
  | inl same ↦
      let e : s ≡ codes "exit" = same_text-eq s (codes "exit") same in
      let plain : has_byte pipe_sign (codes "exit") ≡ false =
        has_byte_none pipe_sign (codes "exit") (refl, (refl, (refl, (refl, tt)))) in
      let both : has_byte pipe_sign (codes "exit") ≡ true = rw (sym e) h in cc
]

read_pipe :
    (s t : Bytes)
    → Without pipe_sign s
    → remove_newline ((s ++ pipe_sign ∷ t) ++ 10 ∷ []) ≡ s ++ pipe_sign ∷ t
    → read_line ((s ++ pipe_sign ∷ t) ++ 10 ∷ [])
      ≡ piped (parse_arguments (trim s)) (parse_arguments (trim t))
unfolding read_line
read_pipe [] t h cut =
    rw (cut, read_line)
      (rw
        (not_exit (pipe_sign ∷ t) (has_byte-append pipe_sign [] t), has_byte-append pipe_sign [] t)
        (rw (before-append_stop pipe_sign [] t h, behind-append pipe_sign [] t h)))
read_pipe (c ∷ s) t h cut =
    rw (cut, read_line)
      (rw
        (
          not_exit (c ∷ s ++ pipe_sign ∷ t) (has_byte-append pipe_sign (c ∷ s) t),
          has_byte-append pipe_sign (c ∷ s) t,
        )
        (rw (before-append_stop pipe_sign (c ∷ s) t h, behind-append pipe_sign (c ∷ s) t h)))

cut_line :
    (s t : Bytes)
    → Without 10 s
    → Without 10 t
    → remove_newline ((s ++ pipe_sign ∷ t) ++ 10 ∷ []) ≡ s ++ pipe_sign ∷ t
unfolding remove_newline
cut_line s t hs ht =
    before-append_stop 10 (s ++ pipe_sign ∷ t) []
      (Without-append 10 s (pipe_sign ∷ t) hs (refl, ht))

-- A typed line of two commands with '|' between them, however they are spaced: two processes are
-- to be run, the first with the words in front of the sign and the second with those behind it, at
-- most 63 each.
pub read_line_piped :
    (p q : Phrase)
    → IsPhrase p
    → IsPhrase q
    → read_line ((text p ++ pipe_sign ∷ text q) ++ 10 ∷ []) ≡ piped (arguments p) (arguments q)
read_line_piped p q hp hq =
    read_pipe (text p) (text q) hp.2 (cut_line (text p) (text q) hp.3 hq.3)
    ∙ ap (λ a. piped a (parse_arguments (trim (text q)))) (trim_phrase p hp)
    ∙ ap (λ b. piped (arguments p) b) (trim_phrase q hq)
