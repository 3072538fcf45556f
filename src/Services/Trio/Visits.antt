-- ===== src/Services/Trio/Visits.antt =====
-- The loop of `main` ends with the third client that gets a thread.
use eltex_lessons.Base.{
  ℕ, ◌+◌, ◌≤◌, ◌<◌, ◌≡◌, refl, ◌∙◌, ap, true, false, Option, some, List, [], ◌∷◌, ◌++◌, arith, leb,
  ◌==◌, length, map, All,
}
use eltex_lessons.Base.Int.{pos}
use eltex_lessons.Text.{codes}
use eltex_lessons.Text.Decimal.{print_int}
use eltex_lessons.Services.Trio.{
  max_clients, Server, start, Effect, sent, closed, detached, endpoint, Visit, no_client, no_thread,
  client, keep_thread, serve_visit, main_loop,
}

-- The clients that get a thread: the descriptor and the thread.
abbrev pub served : List Visit → List (ℕ × ℕ)
served [] = []
served (no_client ∷ vs) = served vs
served (no_thread fd ∷ vs) = served vs
served (client fd tid ∷ vs) = (fd, tid) ∷ served vs

-- The descriptors and the ports of the addresses that are sent, and the threads that are let go.
abbrev pub addressed : List Effect → List ℕ
addressed [] = []
addressed (sent fd port text ∷ es) = fd ∷ addressed es
addressed (closed fd ∷ es) = addressed es
addressed (detached tid ∷ es) = addressed es

abbrev pub ports : List Effect → List ℕ
ports [] = []
ports (sent fd port text ∷ es) = port ∷ ports es
ports (closed fd ∷ es) = ports es
ports (detached tid ∷ es) = ports es

-- The text that is sent is "127.0.0.1:", the port in decimal digits, and a newline.
abbrev pub IsAddressed : Effect → Type 0
IsAddressed (sent fd port text) = text ≡ codes "127.0.0.1:" ++ (print_int (pos port) ++ codes "\n")
IsAddressed (closed fd) = Unit
IsAddressed (detached tid) = Unit

abbrev pub let_go : List Effect → List ℕ
let_go [] = []
let_go (sent fd port text ∷ es) = let_go es
let_go (closed fd ∷ es) = let_go es
let_go (detached tid ∷ es) = tid ∷ let_go es

-- Each is greater than the one before, and the first at least `lo`.
abbrev pub IsRising : ℕ → List ℕ → Type 0
IsRising lo [] = Unit
IsRising lo (p ∷ ps) = (lo ≤ p) × IsRising (p + 1) ps

-- All threads but the last, and the last one.
abbrev pub all_but_last : List (ℕ × ℕ) → List ℕ
all_but_last [] = []
all_but_last (w ∷ []) = []
all_but_last (w ∷ v ∷ ws) = w.1 ∷ all_but_last (v ∷ ws)

abbrev pub last_thread : Option ℕ → List (ℕ × ℕ) → Option ℕ
last_thread t [] = t
last_thread t (w ∷ []) = some w.1
last_thread t (w ∷ v ∷ ws) = last_thread t (v ∷ ws)

-- The loop has ended: three clients are served, those that were wanted have got an address each,
-- whose text names the port, with ports that rise, the thread of the last one is kept and the other threads are let go.
pub record Ended (vs : List Visit) (s : Server) (want : List (ℕ × ℕ)) : Type 0 where
  pub server : Server
  pub effects : List Effect
  pub run : main_loop vs s ≡ some (server, effects)
  pub full : server.clients_served ≡ 3
  pub thread : server.third_thread ≡ last_thread s.third_thread want
  pub addresses : addressed effects ≡ map (λ w. w.0) want
  pub rising : IsRising s.current_port (ports effects)
  pub texts : All IsAddressed effects
  pub others : let_go effects ≡ all_but_last want

IsRising-weaken : (lo hi : ℕ) (ps : List ℕ) → lo ≤ hi → IsRising hi ps → IsRising lo ps
IsRising-weaken lo hi [] le r = tt
IsRising-weaken lo hi (p ∷ ps) le r = (omega (arith, r.0), r.1)

main_loop_full :
    (vs : List Visit) (s : Server)
    → leb max_clients s.clients_served ≡ true
    → main_loop vs s ≡ some (s, [])
unfolding main_loop
main_loop_full [] s e = rw e refl
main_loop_full (v ∷ vs) s e = rw e refl

main_loop_step :
    (v : Visit) (vs : List Visit) (s s' end : Server) (out more : List Effect)
    → leb max_clients s.clients_served ≡ false
    → serve_visit v s ≡ (s', out)
    → main_loop vs s' ≡ some (end, more)
    → main_loop (v ∷ vs) s ≡ some (end, out ++ more)
unfolding main_loop
main_loop_step v vs s s' end out more not_full step rest =
    let left : (serve_visit v s).0 ≡ s' = ap (λ r. r.0) step in
    let right : (serve_visit v s).1 ≡ out = ap (λ r. r.1) step in
    let rest' : main_loop vs (serve_visit v s).0 ≡ some (end, more) = rw left rest in
    rw (not_full, main_loop) (rw rest' (ap (λ o. some (end, o ++ more)) right))

keep_last :
    (tid : ℕ) (s : Server)
    → s.clients_served ≡ 2
    → keep_thread tid s
      ≡ (record s { third_thread = some tid; clients_served = s.clients_served + 1 }, [])
unfolding keep_thread
keep_last tid s e = let two : (s.clients_served == 2) ≡ true = ground (arith, e) in rw two refl

keep_other :
    (tid : ℕ) (s : Server)
    → s.clients_served < 2
    → keep_thread tid s ≡ (record s { clients_served = s.clients_served + 1 }, detached tid ∷ [])
unfolding keep_thread
keep_other tid s lt = let two : (s.clients_served == 2) ≡ false = ground (arith, lt) in rw two refl

ends :
    (vs : List Visit) (s : Server) (want more : List (ℕ × ℕ))
    → served vs ≡ want ++ more
    → s.clients_served + length want ≡ 3
    → Ended vs s want
unfolding serve_visit
ends vs s [] more e n =
    let full : leb max_clients s.clients_served ≡ true = ground (arith, n) in
    record {
      server = s;
      effects = [];
      run = main_loop_full vs s full;
      full = omega (arith, n);
      thread = refl;
      addresses = refl;
      rising = tt;
      texts = tt;
      others = refl;
    }
ends [] s (w ∷ want) more e n = absurd cc
ends (no_client ∷ vs) s (w ∷ want) more e n =
    let not_full : leb max_clients s.clients_served ≡ false = ground (arith, n) in
    let r = ends vs s (w ∷ want) more e n in
    record {
      server = r.server;
      effects = r.effects;
      run = main_loop_step no_client vs s s r.server [] r.effects not_full refl r.run;
      full = r.full;
      thread = r.thread;
      addresses = r.addresses;
      rising = r.rising;
      texts = r.texts;
      others = r.others;
    }
ends (no_thread fd ∷ vs) s (w ∷ want) more e n =
    let not_full : leb max_clients s.clients_served ≡ false = ground (arith, n) in
    let s' = record s { current_port = s.current_port + 1 } in
    let r = ends vs s' (w ∷ want) more e n in
    record {
      server = r.server;
      effects = closed fd ∷ r.effects;
      run =
          main_loop_step (no_thread fd) vs s s' r.server (closed fd ∷ []) r.effects not_full refl
            r.run;
      full = r.full;
      thread = r.thread;
      addresses = r.addresses;
      rising =
          IsRising-weaken s.current_port (s.current_port + 1) (ports r.effects) (omega arith)
            r.rising;
      texts = (tt, r.texts);
      others = r.others;
    }
ends (client fd tid ∷ vs) s (w ∷ []) more e n =
    let not_full : leb max_clients s.clients_served ≡ false = ground (arith, n) in
    let same : (fd, tid) ≡ w = cc in
    let left : served vs ≡ more = cc in
    let s' = record s {
      current_port = s.current_port + 1;
      third_thread = some tid;
      clients_served = s.clients_served + 1;
    } in
    let next = record s { current_port = s.current_port + 1 } in
    let out = sent fd s.current_port (endpoint s.current_port) ∷ closed fd ∷ [] in
    let step : serve_visit (client fd tid) s ≡ (s', out) =
      ap (λ r. (r.0, sent fd s.current_port (endpoint s.current_port) ∷ closed fd ∷ r.1))
        (keep_last tid next (omega (arith, n))) in
    let r = ends vs s' [] more left (omega (arith, n)) in
    record {
      server = r.server;
      effects = out ++ r.effects;
      run = main_loop_step (client fd tid) vs s s' r.server out r.effects not_full step r.run;
      full = r.full;
      thread = r.thread ∙ ap (λ x. some x.1) same;
      texts = (refl, (tt, r.texts));
      addresses = ap (λ ds. fd ∷ ds) r.addresses ∙ ap (λ x. x.0 ∷ []) same;
      rising = (omega arith, r.rising);
      others = r.others;
    }
ends (client fd tid ∷ vs) s (w ∷ v ∷ want) more e n =
    let not_full : leb max_clients s.clients_served ≡ false = ground (arith, n) in
    let same : (fd, tid) ≡ w = cc in
    let left : served vs ≡ v ∷ (want ++ more) = cc in
    let s' = record s {
      current_port = s.current_port + 1;
      clients_served = s.clients_served + 1;
    } in
    let next = record s { current_port = s.current_port + 1 } in
    let out = sent fd s.current_port (endpoint s.current_port) ∷ closed fd ∷ detached tid ∷ [] in
    let step : serve_visit (client fd tid) s ≡ (s', out) =
      ap (λ r. (r.0, sent fd s.current_port (endpoint s.current_port) ∷ closed fd ∷ r.1))
        (keep_other tid next (omega (arith, n))) in
    let r = ends vs s' (v ∷ want) more left (omega (arith, n)) in
    record {
      server = r.server;
      effects = out ++ r.effects;
      run = main_loop_step (client fd tid) vs s s' r.server out r.effects not_full step r.run;
      full = r.full;
      thread = r.thread;
      texts = (refl, (tt, (tt, r.texts)));
      addresses = ap (λ ds. fd ∷ ds) r.addresses ∙ ap (λ x. x.0 ∷ map (λ w. w.0) (v ∷ want)) same;
      rising = (omega arith, r.rising);
      others = ap (λ ts. tid ∷ ts) r.others ∙ ap (λ x. x.1 ∷ all_but_last (v ∷ want)) same;
    }

-- Whatever fails in between, the loop ends when a third client has got a thread. The first three
-- such clients, and no others, have got an address each, in the order in which they came: the text
-- "127.0.0.1:", a port in decimal digits and a newline, with ports that rise from 10900; the thread of the third is kept in `third_thread`, and the
-- other two are let go.
pub main_loop_lem :
    (vs : List Visit) (a b c : ℕ × ℕ) (more : List (ℕ × ℕ))
    → served vs ≡ a ∷ b ∷ c ∷ more
    → Ended vs start (a ∷ b ∷ c ∷ [])
main_loop_lem vs a b c more e = ends vs start (a ∷ b ∷ c ∷ []) more e refl
