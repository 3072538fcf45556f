-- ===== src/Services/Lending/Guests.antt =====
-- A serving thread of SocketsSS/TaskTwo/server.c is lent to one client at a time.
use eltex_lessons.Base.{
  All-get, ℕ, zero, suc, ◌+◌, ◌-◌, ◌≤◌, ◌≡◌, refl, ◌∙◌, ap, sym, none, some, List, [], ◌∷◌, ◌++◌,
  arith, ◌==◌, All, All-set, length, set, get_elem?, Bool-cases, Option-cases, inl, inr,
}
use mathlib.Core.Path.{subst}
use eltex_lessons.Base.Int.{pos}
use eltex_lessons.Text.{codes}
use eltex_lessons.Text.Decimal.{print_int}
use eltex_lessons.Services.Lending.{
  Host, sent, closed, Search, accepting, looking, Desk, endpoint, dismiss, no_servers, look,
  main_step, serve, Reach, begin, asks, connects,
}

-- The flag of a server says whether a client that was sent its port is still to be served, and
-- there is at most one such client.
abbrev pub IsLent : Host → Type 0
IsLent h = (h.guests ≡ h.is_busy) × (h.guests ≤ 1)

-- The port of server `i`. Neither a look of `main` nor a served client changes the ports.
abbrev pub ports : List Host → List ℕ
ports [] = []
ports (h ∷ hs) = h.port ∷ ports hs

-- Each server listens on a port of its own.
pub record IsLending (hs : List Host) : Type 0 where
  pub lent : All IsLent hs
  pub own_ports : ports hs ≡ 10101 ∷ 10102 ∷ 10103 ∷ []

ports-set :
    (hs : List Host) (i : ℕ) (h h' : Host)
    → get_elem? hs i ≡ some h
    → h'.port ≡ h.port
    → ports (set hs i h') ≡ ports hs
ports-set [] i h h' e same = absurd cc
ports-set (x ∷ hs) zero h h' e same =
    let first : x ≡ h = cc in ap (λ p. p ∷ ports hs) (same ∙ ap (λ (y : Host). y.port) (sym first))
ports-set (x ∷ hs) (suc i) h h' e same = ap (λ ps. x.port ∷ ps) (ports-set hs i h h' e same)

look-IsLent : (fd i : ℕ) (s : Desk) → All IsLent s.servers → All IsLent (look fd i s).servers
unfolding look
look-IsLent fd i s v = elim (Option-cases (get_elem? s.servers i)) [
  | inl past ↦ rw (past, look) v
  | inr (h, e) ↦
      let lent = All-get IsLent s.servers i h v e in
      elim (Bool-cases (h.is_busy == 0)) [
        | inl free ↦
            rw (e, look)
              (rw free (
                All-set IsLent s.servers i (record h { is_busy = 1; guests = h.guests + 1 }) v
                  (ground arith)))
        | inr busy ↦ rw (e, look) (rw busy v)
      ]
]

look-ports : (fd i : ℕ) (s : Desk) → ports (look fd i s).servers ≡ ports s.servers
unfolding look
look-ports fd i s = elim (Option-cases (get_elem? s.servers i)) [
  | inl past ↦ rw (past, look) refl
  | inr (h, e) ↦ elim (Bool-cases (h.is_busy == 0)) [
    | inl free ↦
        let lend = record h { is_busy = 1; guests = h.guests + 1 } in
        rw (e, look) (rw free (ports-set s.servers i h lend e refl))
    | inr busy ↦ rw (e, look) (rw busy refl)
  ]
]

main_step-IsLending : (fd : ℕ) (s : Desk) → IsLending s.servers → IsLending (main_step fd s).servers
unfolding main_step
main_step-IsLending fd s v = by_search s.search refl
  where
    by_search : (p : Search) → s.search ≡ p → IsLending (main_step fd s).servers
    by_search accepting e = rw (e, main_step) v
    by_search (looking fd' i) e =
        rw (e, main_step)
          record { lent = look-IsLent fd' i s v.lent; own_ports = look-ports fd' i s ∙ v.own_ports }

-- What a step of `main` does from a state: it makes no change to the servers and sends nothing; it
-- refuses the client; or it lends a server that has no client to serve, and sends the client the
-- port of that server.
pub data Lends (s t : Desk) : Type 0 where
  goes_on : t.servers ≡ s.servers → t.effects ≡ s.effects → Lends s t
  refuses :
      (fd i : ℕ)
      → s.search ≡ looking fd i
      → length s.servers ≤ i
      → t.servers ≡ s.servers
      → t.effects
        ≡ s.effects ++ sent fd (codes "ERROR: No free servers available\n") ∷ closed fd ∷ []
      → Lends s t
  lends :
      (fd i : ℕ) (h : Host)
      → s.search ≡ looking fd i
      → get_elem? s.servers i ≡ some h
      → h.guests ≡ 0
      → t.servers ≡ set s.servers i (record { port = h.port; is_busy = 1; guests = 1 })
      → t.effects
        ≡ s.effects
          ++ sent fd (codes "127.0.0.1:" ++ (print_int (pos h.port) ++ codes "\n")) ∷ closed fd ∷ []
      → Lends s t

past_end : (hs : List Host) (i : ℕ) → get_elem? hs i ≡ none → length hs ≤ i
past_end [] i e = omega arith
past_end (h ∷ hs) zero e = absurd cc
past_end (h ∷ hs) (suc i) e = omega (arith, past_end hs i e)

look-Lends :
    (fd i : ℕ) (s : Desk) → All IsLent s.servers → s.search ≡ looking fd i → Lends s (look fd i s)
unfolding look
look-Lends fd i s v at_i = elim (Option-cases (get_elem? s.servers i)) [
  | inl past ↦
      let same : look fd i s
          ≡ record s { search = accepting; effects = s.effects ++ dismiss fd no_servers } =
        rw (past, look) refl in
      refuses fd i at_i (past_end s.servers i past) (ap (λ (t : Desk). t.servers) same)
        (ap (λ (t : Desk). t.effects) same)
  | inr (h, e) ↦ elim (Bool-cases (h.is_busy == 0)) [
    | inl free ↦
        let lent = All-get IsLent s.servers i h v e in
        let no_guest : h.guests ≡ 0 = ground arith in
        let same : look fd i s ≡ record s {
          servers = set s.servers i (record h { is_busy = 1; guests = h.guests + 1 });
          search = accepting;
          effects = s.effects ++ dismiss fd (endpoint h.port);
        } =
          rw (e, look) (rw free refl) in
        lends fd i h at_i e no_guest
          (ap (λ (t : Desk). t.servers) same
            ∙ ap (λ g. set s.servers i (record { port = h.port; is_busy = 1; guests = g + 1 }))
                no_guest)
          (ap (λ (t : Desk). t.effects) same)
    | inr busy ↦
        let same : look fd i s ≡ record s { search = looking fd (i + 1) } =
          rw (e, look) (rw busy refl) in
        goes_on (ap (λ (t : Desk). t.servers) same) (ap (λ (t : Desk). t.effects) same)
  ]
]

main_step-Lends : (fd : ℕ) (s : Desk) → All IsLent s.servers → Lends s (main_step fd s)
unfolding main_step
main_step-Lends fd s v = by_search s.search refl
  where
    step_from : Search → Desk
    step_from accepting = record s { search = looking fd 0 }
    step_from (looking fd' i) = look fd' i s

    stepped : (p : Search) → s.search ≡ p → main_step fd s ≡ step_from p
    stepped p e = ap step_from e

    by_search : (p : Search) → s.search ≡ p → Lends s (main_step fd s)
    by_search accepting e = subst (Lends s) (sym (stepped accepting e)) (goes_on refl refl)
    by_search (looking fd' i) e =
        subst (Lends s) (sym (stepped (looking fd' i) e)) (look-Lends fd' i s v e)

Reach-servers : {s : Desk} → Reach s → IsLending s.servers
unfolding serve
Reach-servers begin = record { lent = omega arith; own_ports = refl }
Reach-servers (asks {s} r fd) = main_step-IsLending fd s (Reach-servers r)
Reach-servers (connects {s} r i n fd port busy time request e) =
    let v = Reach-servers r in
    let taken : Host = record { port = port; is_busy = busy; guests = suc n } in
    let left : Host = record { port = port; is_busy = 0; guests = suc n - 1 } in
    let lent = All-get IsLent s.servers i taken v.lent e in
    record {
      lent = All-set IsLent s.servers i left v.lent (ground arith);
      own_ports = ports-set s.servers i taken left e refl ∙ v.own_ports;
    }

-- Where clients connect only to the port that they were sent, and once: in every state that the
-- main server and the threads reach, the three servers have the ports 10101, 10102 and 10103, each
-- is flagged as busy exactly while a client that was sent its port is still to be served, and there
-- is at most one such client. From there a step of `main` sends a client the port of a server only
-- if that server has no client to serve, which is then the one client of it; it refuses a client
-- only behind the last server, and sends nothing else. So no port is lent to two clients at once.
pub Reach-IsLending : (fd : ℕ) {s : Desk} → Reach s → IsLending s.servers × Lends s (main_step fd s)
Reach-IsLending fd {s} r = let v = Reach-servers r in (v, main_step-Lends fd s v.lent)
