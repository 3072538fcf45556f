-- ===== src/PipeChild/Steps.antt =====
-- Pipe/MyPipe: what holds in every state, and that the steps keep it.
use eltex_lessons.Base.{
  ℕ, ◌+◌, ◌≡◌, ◌≢◌, refl, sym, ◌∙◌, ap, Option, none, some, [], ◌∷◌, ◌++◌, arith, ◌==◌, length,
  length-append, Bool-cases, inl, inr,
}
use mathlib.Core.Path.{subst}
use mathlib.Core.List.{append_assoc}
use eltex_lessons.Text.{Bytes}
use eltex_lessons.PipeChild.{
  msg, ParentPlace, closes_read, writes_msg, closes_write, waits_for_child, parent_ended,
  parent_killed, ChildPlace, child_closes_write, child_copies, child_closes_read, child_exited,
  State, is_exited, parent_at, copy_byte, child_at,
}

-- The ends that a process holds, what has been written, and the steps that are still to come.
abbrev pub parent_reads : ParentPlace → ℕ
parent_reads closes_read = 1
parent_reads writes_msg = 0
parent_reads closes_write = 0
parent_reads waits_for_child = 0
parent_reads parent_ended = 0
parent_reads parent_killed = 0

abbrev pub parent_writes : ParentPlace → ℕ
parent_writes closes_read = 1
parent_writes writes_msg = 1
parent_writes closes_write = 1
parent_writes waits_for_child = 0
parent_writes parent_ended = 0
parent_writes parent_killed = 1

abbrev pub written : ParentPlace → Bytes
written closes_read = []
written writes_msg = []
written closes_write = msg
written waits_for_child = msg
written parent_ended = msg
written parent_killed = []

abbrev pub parent_left : ParentPlace → ℕ
parent_left closes_read = 4
parent_left writes_msg = 3
parent_left closes_write = 2
parent_left waits_for_child = 1
parent_left parent_ended = 0
parent_left parent_killed = 0

abbrev pub child_reads : ChildPlace → ℕ
child_reads child_closes_write = 1
child_reads child_copies = 1
child_reads child_closes_read = 1
child_reads child_exited = 0

abbrev pub child_writes : ChildPlace → ℕ
child_writes child_closes_write = 1
child_writes child_copies = 0
child_writes child_closes_read = 0
child_writes child_exited = 0

abbrev pub child_left : ChildPlace → ℕ
child_left child_closes_write = 3
child_left child_copies = 2
child_left child_closes_read = 1
child_left child_exited = 0

-- The child is behind its loop only when the parent has closed its end and the pipe is empty; the
-- parent has ended only behind the child, and is never killed.
abbrev pub Late : ParentPlace → ChildPlace → Bytes → Type 0
Late p child_closes_write bs = Unit
Late p child_copies bs = Unit
Late p child_closes_read bs = (parent_writes p ≡ 0) × (bs ≡ [])
Late p child_exited bs = (parent_writes p ≡ 0) × (bs ≡ [])

abbrev pub Ended : ParentPlace → ChildPlace → Type 0
Ended closes_read c = Unit
Ended writes_msg c = Unit
Ended closes_write c = Unit
Ended waits_for_child c = Unit
Ended parent_ended c = c ≡ child_exited
Ended parent_killed c = ⊥

pub record At (p : ParentPlace) (c : ChildPlace) (n : ℕ) (s : State) : Type 0 where
  pub readers : s.readers ≡ parent_reads p + child_reads c
  pub writers : s.writers ≡ parent_writes p + child_writes c
  pub text : s.output ++ s.pipe ≡ written p
  pub late : Late p c s.pipe
  pub ended : Ended p c
  pub steps : n + parent_left p + child_left c + 2 ≡ 9 + length s.output

abbrev pub Inv : ℕ → State → Type 0
Inv n s = At s.parent s.child n s

abbrev pub Holds : ℕ → Option State → Type 0
Holds n none = Unit
Holds n (some t) = Inv n t

-- As long as the parent can write, the child is not behind its loop.
carried_over :
    (p q : ParentPlace) (c : ChildPlace) (a b : Bytes)
    → parent_writes p ≡ 1
    → Late p c a
    → Late q c b
carried_over p q child_closes_write a b w h = tt
carried_over p q child_copies a b w h = tt
carried_over p q child_closes_read a b w h = absurd (omega (arith, w, h.0))
carried_over p q child_exited a b w h = absurd (omega (arith, w, h.0))

still_reads :
    (p : ParentPlace) (c : ChildPlace) (a : Bytes)
    → parent_writes p ≡ 1
    → Late p c a
    → child_reads c ≡ 1
still_reads p child_closes_write a w h = refl
still_reads p child_copies a w h = refl
still_reads p child_closes_read a w h = refl
still_reads p child_exited a w h = absurd (omega (arith, w, h.0))

moved_on :
    (p q : ParentPlace) (c : ChildPlace) (a : Bytes) → parent_writes q ≡ 0 → Late p c a → Late q c a
moved_on p q child_closes_write a e h = tt
moved_on p q child_copies a e h = tt
moved_on p q child_closes_read a e h = (e, h.1)
moved_on p q child_exited a e h = (e, h.1)

unended : (p : ParentPlace) (c d : ChildPlace) → Ended p c → c ≢ child_exited → Ended p d
unended closes_read c d h n = tt
unended writes_msg c d h n = tt
unended closes_write c d h n = tt
unended waits_for_child c d h n = tt
unended parent_ended c d h n = absurd (n h)
unended parent_killed c d h n = absurd h

pub parent_at-Holds :
    (p : ParentPlace) (n : ℕ) (s : State) → At p s.child n s → Holds (n + 1) (parent_at p s)
unfolding parent_at
parent_at-Holds closes_read n s h = record {
  readers = omega (arith, h.readers);
  writers = h.writers;
  text = h.text;
  late = carried_over closes_read writes_msg s.child s.pipe s.pipe refl h.late;
  ended = tt;
  steps = omega (arith, h.steps);
}
parent_at-Holds writes_msg n s h = elim (Bool-cases (s.readers == 0)) [
  | inl nobody ↦
      let one : child_reads s.child ≡ 1 = still_reads writes_msg s.child s.pipe refl h.late in
      absurd (ground (arith, h.readers))
  | inr somebody ↦ rw somebody (record {
    readers = h.readers;
    writers = h.writers;
    text = sym (append_assoc s.output s.pipe msg) ∙ ap (λ t. t ++ msg) h.text;
    late = carried_over writes_msg closes_write s.child s.pipe (s.pipe ++ msg) refl h.late;
    ended = tt;
    steps = omega (arith, h.steps);
  })
]
parent_at-Holds closes_write n s h = record {
  readers = h.readers;
  writers = omega (arith, h.writers);
  text = h.text;
  late = carried_over closes_write waits_for_child s.child s.pipe s.pipe refl h.late;
  ended = tt;
  steps = omega (arith, h.steps);
}
parent_at-Holds waits_for_child n s h = at_child s.child refl
  where
    at_child : (c : ChildPlace) → s.child ≡ c → Holds (n + 1) (is_exited c s)
    at_child child_closes_write e = tt
    at_child child_copies e = tt
    at_child child_closes_read e = tt
    at_child child_exited e = record {
      readers = h.readers;
      writers = h.writers;
      text = h.text;
      late = moved_on waits_for_child parent_ended s.child s.pipe refl h.late;
      ended = e;
      steps = omega (arith, h.steps);
    }
parent_at-Holds parent_ended n s h = tt
parent_at-Holds parent_killed n s h = tt

copy_byte-Holds :
    (bs : Bytes) (n : ℕ) (s : State)
    → s.pipe ≡ bs
    → s.child ≡ child_copies
    → At s.parent child_copies n s
    → Holds (n + 1) (copy_byte bs s)
unfolding copy_byte
copy_byte-Holds [] n s e c h = elim (Bool-cases (s.writers == 0)) [
  | inl over ↦ rw over (record {
    readers = h.readers;
    writers = h.writers;
    text = h.text;
    late = (ground (arith, h.writers), e);
    ended = unended s.parent child_copies child_closes_read h.ended (λ x. cc);
    steps = omega (arith, h.steps);
  })
  | inr more ↦ rw more tt
]
copy_byte-Holds (b ∷ bs) n s e c h =
    let t = record s { pipe = bs; output = s.output ++ b ∷ [] } in
    let there : At s.parent child_copies (n + 1) t = record {
      readers = h.readers;
      writers = h.writers;
      text = append_assoc s.output (b ∷ []) bs ∙ ap (λ x. s.output ++ x) (sym e) ∙ h.text;
      late = tt;
      ended = h.ended;
      steps = omega (arith, h.steps, length-append s.output (b ∷ []));
    } in
    subst (λ q. At s.parent q (n + 1) t) (sym c) there

pub child_at-Holds :
    (c : ChildPlace) (n : ℕ) (s : State)
    → s.child ≡ c
    → At s.parent c n s
    → Holds (n + 1) (child_at c s)
unfolding child_at
child_at-Holds child_closes_write n s e h = record {
  readers = h.readers;
  writers = omega (arith, h.writers);
  text = h.text;
  late = tt;
  ended = unended s.parent child_closes_write child_copies h.ended (λ x. cc);
  steps = omega (arith, h.steps);
}
child_at-Holds child_copies n s e h = copy_byte-Holds s.pipe n s refl e h
child_at-Holds child_closes_read n s e h = record {
  readers = omega (arith, h.readers);
  writers = h.writers;
  text = h.text;
  late = h.late;
  ended = unended s.parent child_closes_read child_exited h.ended (λ x. cc);
  steps = omega (arith, h.steps);
}
child_at-Holds child_exited n s e h = tt
