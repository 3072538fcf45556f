-- ===== src/SharedMemory/Handshake.antt =====
-- Whatever the order in which the two are scheduled.
use eltex_lessons.Base.{
  ℕ, ◌+◌, ◌≤◌, ◌≡◌, ◌≢◌, refl, ◌∙◌, ap, sym, Option, none, some, arith, ◌⊎◌, inl, inr,
}
use mathlib.Core.Path.{subst}
use eltex_lessons.Text.{Bytes, codes, before}
use eltex_lessons.SharedMemory.{
  server_ended, client_ended, client_failed, State, server_step, Kind, client_step_of, Reach, begin,
  by_server, by_client,
}
use eltex_lessons.SharedMemory.Phases.{
  Phase, both_start, hi_written, hi_signalled, client_woken, hi_read, hello_written,
  hello_signalled, client_gone, server_woken, server_woken_alone, hello_read, hello_read_alone,
  server_gone, both_gone, rank, state_of, next_server, next_client, states, server_lem, client_lem,
}

abbrev Rises : Option Phase → Phase → Type 0
Rises none p = Unit
Rises (some q) p = rank q ≡ rank p + 1

server-Rises : (p : Phase) → Rises (next_server p) p
server-Rises both_start = refl
server-Rises hi_written = refl
server-Rises hi_signalled = tt
server-Rises client_woken = tt
server-Rises hi_read = tt
server-Rises hello_written = tt
server-Rises hello_signalled = refl
server-Rises client_gone = refl
server-Rises server_woken = refl
server-Rises server_woken_alone = refl
server-Rises hello_read = refl
server-Rises hello_read_alone = refl
server-Rises server_gone = tt
server-Rises both_gone = tt

client-Rises : (p : Phase) → Rises (next_client p) p
client-Rises both_start = tt
client-Rises hi_written = tt
client-Rises hi_signalled = refl
client-Rises client_woken = refl
client-Rises hi_read = refl
client-Rises hello_written = refl
client-Rises hello_signalled = refl
client-Rises client_gone = tt
client-Rises server_woken = refl
client-Rises server_woken_alone = tt
client-Rises hello_read = refl
client-Rises hello_read_alone = tt
client-Rises server_gone = refl
client-Rises both_gone = tt

abbrev Known : Bytes → ℕ → State → Type 0
Known m n s = (p : Phase) × (s ≡ state_of m p) × (n ≡ rank p)

next-Known :
    (m : Bytes) (n : ℕ) (q : Option Phase) (p : Phase) (t : State)
    → states m q ≡ some t
    → Rises q p
    → n ≡ rank p
    → Known m (n + 1) t
next-Known m n none p t e r k = absurd cc
next-Known m n (some q) p t e r k = (q, cc, omega (arith, k, r))

Reach-Known : (k : Kind) (m : Bytes) {n : ℕ} {s : State} → Reach k m n s → Known m n s
Reach-Known k m begin = (both_start, refl, refl)
Reach-Known k m (by_server {n} {s} {t} before run) =
    let (p, e, count) = Reach-Known k m before in
    next-Known m n (next_server p) p t (sym (server_lem m p) ∙ ap server_step (sym e) ∙ run)
      (server-Rises p) count
Reach-Known k m (by_client {n} {s} {t} before run) =
    let (p, e, count) = Reach-Known k m before in
    next-Known m n (next_client p) p t
      (sym (client_lem k m p) ∙ ap (client_step_of k) (sym e) ∙ run) (client-Rises p) count

-- What is read so far, and that nobody is stuck before both have ended.
pub record IsFair (k : Kind) (n : ℕ) (s : State) : Type 0 where
  pub bounded : n ≤ 10
  pub server_reads_hello : (s.server_read ≡ none) ⊎ (s.server_read ≡ some (codes "Hello!"))
  pub client_reads_hi : (s.client_read ≡ none) ⊎ (s.client_read ≡ some (codes "Hi!"))
  pub no_failure : s.client ≢ client_failed
  pub stuck :
      server_step s ≡ none
      → client_step_of k s ≡ none
      → (s.server ≡ server_ended)
        × (s.client ≡ client_ended)
        × (s.server_read ≡ some (codes "Hello!"))
        × (s.client_read ≡ some (codes "Hi!"))

some_not_none : {s : State} → some s ≢ none
some_not_none = λ e. cc

phase-IsFair : (k : Kind) (m : Bytes) (p : Phase) → IsFair k (rank p) (state_of m p)
phase-IsFair k m both_start = record {
  bounded = omega arith;
  server_reads_hello = inl refl;
  client_reads_hi = inl refl;
  no_failure = λ e. cc;
  stuck = λ e f. absurd (some_not_none (sym (server_lem m both_start) ∙ e));
}
phase-IsFair k m hi_written = record {
  bounded = omega arith;
  server_reads_hello = inl refl;
  client_reads_hi = inl refl;
  no_failure = λ e. cc;
  stuck = λ e f. absurd (some_not_none (sym (server_lem m hi_written) ∙ e));
}
phase-IsFair k m hi_signalled = record {
  bounded = omega arith;
  server_reads_hello = inl refl;
  client_reads_hi = inl refl;
  no_failure = λ e. cc;
  stuck = λ e f. absurd (some_not_none (sym (client_lem k m hi_signalled) ∙ f));
}
phase-IsFair k m client_woken = record {
  bounded = omega arith;
  server_reads_hello = inl refl;
  client_reads_hi = inl refl;
  no_failure = λ e. cc;
  stuck = λ e f. absurd (some_not_none (sym (client_lem k m client_woken) ∙ f));
}
phase-IsFair k m hi_read = record {
  bounded = omega arith;
  server_reads_hello = inl refl;
  client_reads_hi = inr refl;
  no_failure = λ e. cc;
  stuck = λ e f. absurd (some_not_none (sym (client_lem k m hi_read) ∙ f));
}
phase-IsFair k m hello_written = record {
  bounded = omega arith;
  server_reads_hello = inl refl;
  client_reads_hi = inr refl;
  no_failure = λ e. cc;
  stuck = λ e f. absurd (some_not_none (sym (client_lem k m hello_written) ∙ f));
}
phase-IsFair k m hello_signalled = record {
  bounded = omega arith;
  server_reads_hello = inl refl;
  client_reads_hi = inr refl;
  no_failure = λ e. cc;
  stuck = λ e f. absurd (some_not_none (sym (server_lem m hello_signalled) ∙ e));
}
phase-IsFair k m client_gone = record {
  bounded = omega arith;
  server_reads_hello = inl refl;
  client_reads_hi = inr refl;
  no_failure = λ e. cc;
  stuck = λ e f. absurd (some_not_none (sym (server_lem m client_gone) ∙ e));
}
phase-IsFair k m server_woken = record {
  bounded = omega arith;
  server_reads_hello = inl refl;
  client_reads_hi = inr refl;
  no_failure = λ e. cc;
  stuck = λ e f. absurd (some_not_none (sym (server_lem m server_woken) ∙ e));
}
phase-IsFair k m server_woken_alone = record {
  bounded = omega arith;
  server_reads_hello = inl refl;
  client_reads_hi = inr refl;
  no_failure = λ e. cc;
  stuck = λ e f. absurd (some_not_none (sym (server_lem m server_woken_alone) ∙ e));
}
phase-IsFair k m hello_read = record {
  bounded = omega arith;
  server_reads_hello = inr refl;
  client_reads_hi = inr refl;
  no_failure = λ e. cc;
  stuck = λ e f. absurd (some_not_none (sym (server_lem m hello_read) ∙ e));
}
phase-IsFair k m hello_read_alone = record {
  bounded = omega arith;
  server_reads_hello = inr refl;
  client_reads_hi = inr refl;
  no_failure = λ e. cc;
  stuck = λ e f. absurd (some_not_none (sym (server_lem m hello_read_alone) ∙ e));
}
phase-IsFair k m server_gone = record {
  bounded = omega arith;
  server_reads_hello = inr refl;
  client_reads_hi = inr refl;
  no_failure = λ e. cc;
  stuck = λ e f. absurd (some_not_none (sym (client_lem k m server_gone) ∙ f));
}
phase-IsFair k m both_gone = record {
  bounded = omega arith;
  server_reads_hello = inr refl;
  client_reads_hi = inr refl;
  no_failure = λ e. cc;
  stuck = λ e f. (refl, refl, refl, refl);
}

-- In both pairs of programs, however the statements of the two are interleaved, and whatever the
-- memory holds at first: at most ten statements are run; the server reads nothing but "Hello!" and
-- the client nothing but "Hi!"; no call of the client on a semaphore fails; and where neither can
-- go on, both have ended and both have read.
pub Reach-IsFair : (k : Kind) (m : Bytes) (n : ℕ) (s : State) → Reach k m n s → IsFair k n s
Reach-IsFair k m n s r =
    let (p, e, count) = Reach-Known k m r in
    subst (λ i. IsFair k i s) (sym count) (subst (IsFair k (rank p)) (sym e) (phase-IsFair k m p))
