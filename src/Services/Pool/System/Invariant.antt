-- ===== src/Services/Pool/System/Invariant.antt =====
-- What holds of the pool in every reachable state.
use eltex_lessons.Base.{
  All-get, ℕ, zero, suc, ◌+◌, ◌≡◌, refl, ◌∙◌, ap, Bool, some, List, [], ◌∷◌, ◌++◌, arith, ltb, All,
  All-set, length, get_elem?, set, if◌then◌else◌, Bool-cases, Option-cases, inl, inr, sym,
}
use mathlib.Core.Path.{subst}
use mathlib.Core.List.{append_assoc}
use eltex_lessons.Text.{Bytes}
use eltex_lessons.Services.Pool.{
  Item, Ring, queue_size, Effect, enqueue_client, dequeue_client, Stage, waiting, taking, serving,
  releasing, Server, claim, release,
}
use eltex_lessons.Services.Pool.Queue.{IsRing, clients, enqueue_client_lem, dequeue_client_lem}
use eltex_lessons.Services.Pool.System.{
  System, start, accept_client, stage_step, thread_step, Reach, begin, accepts, steps,
}

-- How many clients of a list have a property.
abbrev pub tally : (Item → Bool) → List Item → ℕ
tally p [] = 0
tally p (c ∷ cs) = (if p c then 1 else 0) + tally p cs

tally-append : (p : Item → Bool) (xs ys : List Item) → tally p (xs ++ ys) ≡ tally p xs + tally p ys
tally-append p [] ys = omega arith
tally-append p (x ∷ xs) ys = omega (arith, tally-append p xs ys)

-- The client that a thread is busy with.
abbrev pub in_hand : (Item → Bool) → Stage → ℕ
in_hand p (serving c) = if p c then 1 else 0
in_hand p waiting = 0
in_hand p taking = 0
in_hand p releasing = 0

abbrev pub all_in_hand : (Item → Bool) → List Server → ℕ
all_in_hand p [] = 0
all_in_hand p (sv ∷ svs) = in_hand p sv.stage + all_in_hand p svs

all_in_hand-set :
    (p : Item → Bool) (svs : List Server) (i : ℕ) (sv sv' : Server)
    → get_elem? svs i ≡ some sv
    → all_in_hand p (set svs i sv') + in_hand p sv.stage ≡ all_in_hand p svs + in_hand p sv'.stage
all_in_hand-set p [] i sv sv' e = cc
all_in_hand-set p (x ∷ svs) zero sv sv' e = ground arith
all_in_hand-set p (x ∷ svs) (suc i) sv sv' e = omega (arith, all_in_hand-set p svs i sv sv' e)

-- The flag of a server tells whether its thread is past the test.
abbrev pub flag : Stage → ℕ
flag waiting = 0
flag taking = 1
flag (serving c) = 1
flag releasing = 1

abbrev pub IsFlagged : Server → Type 0
IsFlagged sv = sv.is_busy ≡ flag sv.stage

some_eq {ℓ} : {A : Type ℓ} {x y : A} → some x ≡ some y → x ≡ y
some_eq e = cc

-- The queue is well formed; the flags are right; clients are taken in the order in which they
-- were queued; and what was taken is with a thread or served.
pub record IsPool (s : System) : Type 0 where
  pub ring : IsRing s.queue
  pub flags : All IsFlagged s.servers
  pub order : s.queued ≡ s.taken ++ clients s.queue
  pub kept : (p : Item → Bool) → tally p s.taken ≡ all_in_hand p s.servers + tally p s.served

start-IsPool : IsPool start
start-IsPool = record {
  ring = omega arith;
  flags = (refl, (refl, (refl, tt)));
  order = refl;
  kept = λ p. refl;
}

queued_client :
    (c : Item) (s : System) (q : Ring)
    → IsPool s
    → IsRing q
    → clients q ≡ clients s.queue ++ c ∷ []
    → IsPool (record s { queue = q; queued = s.queued ++ c ∷ [] })
queued_client c s q v r e = record {
  ring = r;
  flags = v.flags;
  order =
      ap (λ t. t ++ c ∷ []) v.order
      ∙ append_assoc s.taken (clients s.queue) (c ∷ [])
      ∙ ap (λ t. s.taken ++ t) (sym e);
  kept = v.kept;
}

accept_client-IsPool : (c : Item) (s : System) → IsPool s → IsPool (accept_client c s)
unfolding accept_client
accept_client-IsPool c s v =
    let (r, e, sent) = enqueue_client_lem c s.queue v.ring in
    elim (Bool-cases (ltb (length (clients s.queue)) queue_size)) [
      | inl room ↦
          let quiet = rw room at sent in
          let grown = rw room at e in
          rw (quiet, accept_client) (queued_client c s (enqueue_client c s.queue).0 v r grown)
      | inr full ↦
          let told = rw full at sent in
          let same = rw full at e in
          rw (told, accept_client)
            (record {
              ring = r;
              flags = v.flags;
              order = v.order ∙ ap (λ t. s.taken ++ t) (sym same);
              kept = v.kept;
            })
    ]

-- A thread that moves on with the client that it has, or with none.
moved :
    (s : System) (i : ℕ) (sv sv' : Server)
    → IsPool s
    → get_elem? s.servers i ≡ some sv
    → IsFlagged sv'
    → ((p : Item → Bool) → in_hand p sv'.stage ≡ in_hand p sv.stage)
    → IsPool (record s { servers = set s.servers i sv' })
moved s i sv sv' v e f same = record {
  ring = v.ring;
  flags = All-set IsFlagged s.servers i sv' v.flags f;
  order = v.order;
  kept = λ p. omega (arith, v.kept p, same p, all_in_hand-set p s.servers i sv sv' e);
}

claimed :
    (s : System) (i : ℕ) (sv sv' : Server)
    → IsPool s
    → get_elem? s.servers i ≡ some sv
    → sv.stage ≡ waiting
    → claim sv ≡ some sv'
    → IsPool (record s { servers = set s.servers i sv' })
unfolding claim
claimed s i sv sv' v e st c = moved s i sv sv' v e (ground arith) (λ p. ground arith)

released :
    (s : System) (i : ℕ) (sv : Server)
    → IsPool s
    → get_elem? s.servers i ≡ some sv
    → sv.stage ≡ releasing
    → IsPool (record s { servers = set s.servers i (release sv) })
unfolding release
released s i sv v e st = moved s i sv (release sv) v e refl (λ p. rw st)

took :
    (s : System) (i : ℕ) (sv : Server) (c : Item) (q : Ring)
    → IsPool s
    → get_elem? s.servers i ≡ some sv
    → sv.stage ≡ taking
    → clients s.queue ≡ c ∷ clients q
    → IsRing q
    → IsPool (record s {
      queue = q;
      servers = set s.servers i (record sv { stage = serving c });
      taken = s.taken ++ c ∷ [];
    })
took s i sv c q v e st took' r =
    let sv' = record sv { stage = serving c } in
    let busy = All-get IsFlagged s.servers i sv v.flags e in
    record {
      ring = r;
      flags = All-set IsFlagged s.servers i sv' v.flags (busy ∙ rw st);
      order =
          v.order ∙ ap (λ t. s.taken ++ t) took' ∙ sym (append_assoc s.taken (c ∷ []) (clients q));
      kept = λ p. omega (
        arith,
        v.kept p,
        tally-append p s.taken (c ∷ []),
        ap (in_hand p) st,
        all_in_hand-set p s.servers i sv sv' e,
      );
    }

served_one :
    (s : System) (i : ℕ) (sv : Server) (c : Item) (es : List Effect)
    → IsPool s
    → get_elem? s.servers i ≡ some sv
    → sv.stage ≡ serving c
    → IsPool (record s {
      servers = set s.servers i (record sv { stage = releasing });
      effects = es;
      served = s.served ++ c ∷ [];
    })
served_one s i sv c es v e st =
    let sv' = record sv { stage = releasing } in
    let busy = All-get IsFlagged s.servers i sv v.flags e in
    record {
      ring = v.ring;
      flags = All-set IsFlagged s.servers i sv' v.flags (busy ∙ rw st);
      order = v.order;
      kept = λ p. omega (
        arith,
        v.kept p,
        tally-append p s.served (c ∷ []),
        ap (in_hand p) st,
        all_in_hand-set p s.servers i sv sv' e,
      );
    }

stage_step-IsPool :
    (time : Bytes) (i : ℕ) (sv : Server) (st : Stage) (s t : System)
    → IsPool s
    → get_elem? s.servers i ≡ some sv
    → sv.stage ≡ st
    → stage_step time i sv st s ≡ some t
    → IsPool t
unfolding stage_step
stage_step-IsPool time i sv waiting s t v e f g = elim (Option-cases (claim sv)) [
  | inl waits ↦ let stuck = rw (waits, stage_step) at g in cc
  | inr (sv', c) ↦ subst IsPool (some_eq (rw (c, stage_step) at g)) (claimed s i sv sv' v e f c)
]
stage_step-IsPool time i sv taking s t v e f g = elim (Option-cases (dequeue_client s.queue)) [
  | inl waits ↦ let stuck = rw (waits, stage_step) at g in cc
  | inr ((c, q), d) ↦
      let (first, r) = rw d at (dequeue_client_lem s.queue v.ring) in
      subst IsPool (some_eq (rw (d, stage_step) at g)) (took s i sv c q v e f first r)
]
stage_step-IsPool time i sv (serving c) s t v e f g =
    subst IsPool (some_eq g) (served_one s i sv c _ v e f)
stage_step-IsPool time i sv releasing s t v e f g = subst IsPool (some_eq g) (released s i sv v e f)

thread_step-IsPool :
    (time : Bytes) (i : ℕ) (s t : System) → IsPool s → thread_step time i s ≡ some t → IsPool t
unfolding thread_step
thread_step-IsPool time i s t v g = elim (Option-cases (get_elem? s.servers i)) [
  | inl absent ↦ let stuck = rw (absent, thread_step) at g in cc
  | inr (sv, e) ↦ stage_step-IsPool time i sv sv.stage s t v e refl (rw (e, thread_step) at g)
]

-- In every state that the main server and its threads can reach, however their steps are
-- interleaved: the ring is a well-formed queue, each server is flagged as busy exactly while its
-- thread is past the test, clients are taken in the order in which they were queued, and each
-- client that was taken is with exactly one thread or has been served once.
pub Reach-IsPool : {s : System} → Reach s → IsPool s
Reach-IsPool begin = start-IsPool
Reach-IsPool (accepts {s} r c) = accept_client-IsPool c s (Reach-IsPool r)
Reach-IsPool (steps {s} {t} r time i g) = thread_step-IsPool time i s t (Reach-IsPool r) g
