-- ===== src/Services/Visitor/Agreement.antt =====
-- SocketsSS/TaskTwo: the search of the main server for a client, and what the client is told.
use eltex_lessons.Base.{
  ℕ, zero, suc, ◌+◌, ◌≤◌, ◌≡◌, refl, ◌∙◌, ap, sym, true, false, Option, none, some, List, [], ◌∷◌,
  ◌++◌, arith, ◌==◌, length, get_elem?, set, drop, if◌then◌else◌, Bool-cases, Option-cases, inl,
  inr,
}
use mathlib.Core.Path.{subst}
use eltex_lessons.Text.{Bytes, Without}
use eltex_lessons.Services.Lending.{
  Host, Search, accepting, looking, Desk, endpoint, dismiss, no_servers, look, main_step,
}
use eltex_lessons.Services.Visitor.{refused, told, two_client}
use eltex_lessons.Services.Visitor.Told.{host_at-set, told_lem, refused_lem, to_hosts}

-- `main` goes on with its search until it is back in accept.
abbrev stop_at : Search → Desk → Desk → Desk
stop_at accepting s next = s
stop_at (looking fd i) s next = next

unfoldable pub settle : ℕ → ℕ → Desk → Desk
settle zero fd s = s
settle (suc n) fd s = stop_at s.search s (settle n fd (main_step fd s))

abbrev pub first_free : List Host → Option Host
first_free [] = none
first_free (h ∷ hs) = if h.is_busy == 0 then some h else first_free hs

-- A client has been dismissed, and has been told the time if a server was free.
pub record Dismissed (fd thread : ℕ) (time : Bytes) (hosts : List Host) (s s' : Desk) : Type 0 where
  pub text : Bytes
  pub back : s'.search ≡ accepting
  pub effects : s'.effects ≡ s.effects ++ dismiss fd text
  pub outcome :
      two_client (some text) (to_hosts thread time s'.servers)
      ≡ some (elim (first_free hosts) [ none ↦ refused no_servers | some h ↦ told time ])
  pub lent : (h : Host) → first_free hosts ≡ some h → text ≡ endpoint h.port

drop-get_elem? :
    (hs : List Host) (i : ℕ) (h : Host) → get_elem? hs i ≡ some h → drop i hs ≡ h ∷ drop (suc i) hs
drop-get_elem? [] i h e = absurd cc
drop-get_elem? (x ∷ hs) zero h e = cc
drop-get_elem? (x ∷ hs) (suc i) h e = drop-get_elem? hs i h e

drop-none : (hs : List Host) (i : ℕ) → get_elem? hs i ≡ none → drop i hs ≡ []
drop-none [] zero e = refl
drop-none [] (suc i) e = refl
drop-none (x ∷ hs) zero e = absurd cc
drop-none (x ∷ hs) (suc i) e = drop-none hs i e

get_elem?-past : (hs : List Host) (i : ℕ) (h : Host) → get_elem? hs i ≡ some h → i + 1 ≤ length hs
get_elem?-past [] i h e = absurd cc
get_elem?-past (x ∷ hs) zero h e = omega arith
get_elem?-past (x ∷ hs) (suc i) h e = omega (arith, get_elem?-past hs i h e)

the_same : {h k : Host} {o : Option Host} → o ≡ some h → o ≡ some k → h ≡ k
the_same e f = cc

settle_back : (n fd : ℕ) (s : Desk) → s.search ≡ accepting → settle n fd s ≡ s
unfolding settle
settle_back zero fd s e = refl
settle_back (suc n) fd s e = ap (λ p. stop_at p s (settle n fd (main_step fd s))) e

main_step-look : (fd i : ℕ) (s : Desk) → s.search ≡ looking fd i → main_step fd s ≡ look fd i s
unfolding main_step
main_step-look fd i s e =
    ap
      (λ p. elim p as (λ q. Desk) [
        | accepting ↦ record s { search = looking fd 0 }
        | looking fd' j ↦ look fd' j s
      ])
      e

settle-look :
    (n fd i : ℕ) (s : Desk)
    → s.search ≡ looking fd i
    → settle (suc n) fd s ≡ settle n fd (look fd i s)
unfolding settle
settle-look n fd i s e =
    ap (λ p. stop_at p s (settle n fd (main_step fd s))) e
    ∙ ap (settle n fd) (main_step-look fd i s e)

look-none :
    (fd i : ℕ) (s : Desk)
    → get_elem? s.servers i ≡ none
    → look fd i s ≡ record s { search = accepting; effects = s.effects ++ dismiss fd no_servers }
unfolding look
look-none fd i s e = rw (e, look) refl

look_free :
    (fd i : ℕ) (s : Desk) (h : Host)
    → get_elem? s.servers i ≡ some h
    → (h.is_busy == 0) ≡ true
    → look fd i s ≡ record s {
      servers = set s.servers i (record h { is_busy = 1; guests = h.guests + 1 });
      search = accepting;
      effects = s.effects ++ dismiss fd (endpoint h.port);
    }
unfolding look
look_free fd i s h e free = rw (e, look) (rw free refl)

look_busy :
    (fd i : ℕ) (s : Desk) (h : Host)
    → get_elem? s.servers i ≡ some h
    → (h.is_busy == 0) ≡ false
    → look fd i s ≡ record s { search = looking fd (i + 1) }
unfolding look
look_busy fd i s h e busy = rw (e, look) (rw busy refl)

passed :
    (fd i thread : ℕ) (time : Bytes) (s s' : Desk)
    → Dismissed fd thread time
        (drop (suc i) s.servers)
        (record s { search = looking fd (suc i) })
        s'
    → (h : Host) → get_elem? s.servers i ≡ some h
    → (h.is_busy == 0) ≡ false
    → Dismissed fd thread time (drop i s.servers) s s'
passed fd i thread time s s' d h e busy =
    let same : first_free (drop i s.servers) ≡ first_free (drop (suc i) s.servers) =
      ap first_free (drop-get_elem? s.servers i h e) ∙ rw busy refl in
    record {
      text = d.text;
      back = d.back;
      effects = d.effects;
      outcome = d.outcome ∙ rw same refl;
      lent = λ g f. d.lent g (sym same ∙ f);
    }

settled_past :
    (n fd i thread : ℕ) (time : Bytes) (s : Desk)
    → s.search ≡ looking fd i
    → get_elem? s.servers i ≡ none
    → Dismissed fd thread time (drop i s.servers) s (settle (suc n) fd s)
settled_past n fd i thread time s at past =
    let done = record s { search = accepting; effects = s.effects ++ dismiss fd no_servers } in
    let run : settle (suc n) fd s ≡ done =
      settle-look n fd i s at
      ∙ ap (settle n fd) (look-none fd i s past)
      ∙ settle_back n fd done refl in
    let nobody : first_free (drop i s.servers) ≡ none =
      ap first_free (drop-none s.servers i past) in
    subst (Dismissed fd thread time (drop i s.servers) s) (sym run) (record {
      text = no_servers;
      back = refl;
      effects = refl;
      outcome = refused_lem (to_hosts thread time s.servers) ∙ rw nobody refl;
      lent = λ h e. absurd cc;
    })

settled_free :
    (n fd i thread : ℕ) (time : Bytes) (s : Desk) (h : Host)
    → Without 0 time
    → s.search ≡ looking fd i
    → get_elem? s.servers i ≡ some h
    → (h.is_busy == 0) ≡ true
    → Dismissed fd thread time (drop i s.servers) s (settle (suc n) fd s)
settled_free n fd i thread time s h clean at e free =
    let k = record h { is_busy = 1; guests = h.guests + 1 } in
    let done = record s {
      servers = set s.servers i k;
      search = accepting;
      effects = s.effects ++ dismiss fd (endpoint h.port);
    } in
    let run : settle (suc n) fd s ≡ done =
      settle-look n fd i s at
      ∙ ap (settle n fd) (look_free fd i s h e free)
      ∙ settle_back n fd done refl in
    let found : first_free (drop i s.servers) ≡ some h =
      ap first_free (drop-get_elem? s.servers i h e) ∙ rw free refl in
    let (g, listens) = host_at-set s.servers i h k e refl in
    subst (Dismissed fd thread time (drop i s.servers) s) (sym run) (record {
      text = endpoint h.port;
      back = refl;
      effects = refl;
      outcome = told_lem h.port thread time (set s.servers i k) g listens clean ∙ rw found refl;
      lent = λ h' e'. ap (λ x. endpoint x.port) (the_same found e');
    })

settled_by :
    (n fd i thread : ℕ) (time : Bytes) (s : Desk)
    → Without 0 time
    → s.search ≡ looking fd i
    → ((h : Host)
        → get_elem? s.servers i ≡ some h
        → (h.is_busy == 0) ≡ false
        → Dismissed fd thread time (drop i s.servers) s (settle (suc n) fd s))
    → Dismissed fd thread time (drop i s.servers) s (settle (suc n) fd s)
settled_by n fd i thread time s clean at busy = elim (Option-cases (get_elem? s.servers i)) [
  | inl past ↦ settled_past n fd i thread time s at past
  | inr (h, e) ↦ elim (Bool-cases (h.is_busy == 0)) [
    | inl free ↦ settled_free n fd i thread time s h clean at e free
    | inr taken ↦ busy h e taken
  ]
]

settled :
    (n fd i thread : ℕ) (time : Bytes) (s : Desk)
    → Without 0 time
    → s.search ≡ looking fd i
    → length s.servers ≡ i + n
    → Dismissed fd thread time (drop i s.servers) s (settle (suc n) fd s)
settled zero fd i thread time s clean at size =
    settled_by zero fd i thread time s clean at
      (λ h e b. absurd (omega (arith, get_elem?-past s.servers i h e, size)))
settled (suc m) fd i thread time s clean at size =
    let next = record s { search = looking fd (suc i) } in
    settled_by (suc m) fd i thread time s clean at (λ h e b.
      let run : settle (suc (suc m)) fd s ≡ settle (suc m) fd next =
        settle-look (suc m) fd i s at
        ∙ ap (settle (suc m) fd) (look_busy fd i s h e b)
        ∙ ap (λ j. settle (suc m) fd (record s { search = looking fd j })) (omega arith) in
      subst (Dismissed fd thread time (drop i s.servers) s) (sym run) (
        passed fd i thread time s (settle (suc m) fd next)
          (settled m fd (suc i) thread time next clean refl (omega (arith, size))) h e b))

-- A client for which the search of `find_free_server` begins is dismissed after at most one look
-- for each server and one more, and another client is accepted: it was sent the address of the
-- first server that is free, connects there and is told the time its thread answers; if no server
-- is free, it was sent the error text, and shows it.
pub two_client_lem :
    (fd thread : ℕ) (time : Bytes) (s : Desk)
    → Without 0 time
    → s.search ≡ looking fd 0
    → Dismissed fd thread time s.servers s (settle (suc (length s.servers)) fd s)
two_client_lem fd thread time s clean at =
    settled (length s.servers) fd 0 thread time s clean at (omega arith)
