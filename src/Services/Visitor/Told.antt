-- ===== src/Services/Visitor/Told.antt =====
-- SocketsSS/TaskTwo: a client, and the serving thread at the port it was sent.
use eltex_lessons.Base.{
  ℕ, zero, suc, ◌≡◌, refl, ◌∙◌, ap, false, Option, none, some, List, [], ◌∷◌, ◌++◌, arith, ◌==◌,
  get_elem?, set, if◌then◌else◌, Bool-cases, inl, inr,
}
use eltex_lessons.Base.Int.{ℤ, pos, eq_ℤ, eq_ℤ_refl}
use eltex_lessons.Text.{
  Bytes, codes, before, same_text, same_text_refl, starts_with, Without, before_of_Without,
}
use eltex_lessons.Text.Decimal.{print_int, scan_int-print_int}
use eltex_lessons.Text.Terminated.{Without-append, print_int-Without}
use eltex_lessons.Services.Lending.{Host, Effect, sent, closed, endpoint, no_servers, serve}
use eltex_lessons.Services.Visitor.{
  scan_endpoint, refused, told, Service, Connect, ask, call_service, two_client,
}

abbrev pub local_ip : Bytes
local_ip = codes "127.0.0.1"

-- What is sent on a descriptor first.
abbrev pub sent_on : ℕ → List Effect → Bytes
sent_on fd [] = []
sent_on fd (sent fd' text ∷ es) = if fd' == fd then text else sent_on fd es
sent_on fd (closed fd' ∷ es) = sent_on fd es

-- The server that listens at a port.
abbrev pub host_at : ℤ → List Host → Option Host
host_at port [] = none
host_at port (h ∷ hs) = if eq_ℤ (pos h.port) port then some h else host_at port hs

-- A connection to a serving thread, which reads the request and answers on the descriptor `fd`.
abbrev pub connected : ℕ → Bytes → Bytes → Option Host → Option Service
connected fd time ip none = none
connected fd time ip (some h) =
    if same_text ip local_ip then some (λ request. sent_on fd (serve fd time request h).1) else none

abbrev pub to_hosts : ℕ → Bytes → List Host → Connect
to_hosts fd time hosts ip port = connected fd time ip (host_at port hosts)

pub endpoint-Without : (port : ℕ) → Without 0 (endpoint port)
endpoint-Without port =
    Without-append 0 (codes "127.0.0.1:") (print_int (pos port) ++ 10 ∷ []) (ground arith)
      (Without-append 0 (print_int (pos port)) (10 ∷ []) (print_int-Without (pos port)) (refl, tt))

-- The clients read the address as it was written.
pub scan_endpoint-endpoint : (port : ℕ) → scan_endpoint (endpoint port) ≡ some (local_ip, pos port)
unfolding scan_endpoint before
scan_endpoint-endpoint port = rw (scan_int-print_int (pos port) (10 ∷ []) refl) refl

pub host_at-set :
    (hs : List Host) (i : ℕ) (h k : Host)
    → get_elem? hs i ≡ some h
    → k.port ≡ h.port
    → (g : Host) × (host_at (pos h.port) (set hs i k) ≡ some g)
host_at-set [] i h k e same = absurd cc
host_at-set (x ∷ hs) zero h k e same = (k, rw (same, eq_ℤ_refl (pos h.port)) refl)
host_at-set (x ∷ hs) (suc i) h k e same = elim (Bool-cases (eq_ℤ (pos x.port) (pos h.port))) [
  | inl hit ↦ (x, rw hit refl)
  | inr miss ↦ let (g, f) = host_at-set hs i h k e same in (g, rw miss f)
]

served_time :
    (fd : ℕ) (time : Bytes) (h : Host) → sent_on fd (serve fd time (codes "TIME") h).1 ≡ time
unfolding serve starts_with
served_time fd time h = ground arith

pub visit_endpoint :
    (connect : Connect) (port : ℕ)
    → call_service connect (endpoint port) ≡ some (ask (codes "TIME") (connect local_ip (pos port)))
unfolding call_service
visit_endpoint connect port = rw (scan_endpoint-endpoint port, call_service) refl

no_error : (port : ℕ) → starts_with (codes "ERROR") (endpoint port) ≡ false
unfolding starts_with
no_error port = refl

asked :
    (port fd : ℕ) (time : Bytes) (hosts : List Host) (h : Host)
    → host_at (pos port) hosts ≡ some h
    → Without 0 time
    → ask (codes "TIME") (to_hosts fd time hosts local_ip (pos port)) ≡ told time
asked port fd time hosts h e clean =
    ap (λ o. ask (codes "TIME") (connected fd time local_ip o)) e
    ∙ ap
        (λ b.
          ask (codes "TIME")
            (if b then some (λ request. sent_on fd (serve fd time request h).1) else none))
        (same_text_refl local_ip)
    ∙ ap (λ t. told (before 0 t)) (served_time fd time h)
    ∙ ap told (before_of_Without 0 time clean)

pub told_lem :
    (port fd : ℕ) (time : Bytes) (hosts : List Host) (h : Host)
    → host_at (pos port) hosts ≡ some h
    → Without 0 time
    → two_client (some (endpoint port)) (to_hosts fd time hosts) ≡ some (told time)
unfolding two_client
told_lem port fd time hosts h e clean =
    let connect = to_hosts fd time hosts in
    ap (λ t. if starts_with (codes "ERROR") t then some (refused t) else call_service connect t)
      (before_of_Without 0 (endpoint port) (endpoint-Without port))
    ∙ ap (λ b. if b then some (refused (endpoint port)) else call_service connect (endpoint port))
        (no_error port)
    ∙ visit_endpoint connect port
    ∙ ap some (asked port fd time hosts h e clean)

pub refused_lem :
    (connect : Connect) → two_client (some no_servers) connect ≡ some (refused no_servers)
unfolding two_client before starts_with
refused_lem connect = refl
