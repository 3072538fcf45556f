-- ===== src/Messages/Posix/ClientSteps.antt =====
-- Messages/Posix: a step of the client keeps the invariant.
use eltex_lessons.Base.{
  ◌+◌, ◌-◌, ◌≡◌, ◌≢◌, refl, sym, ◌∙◌, ap, Bool, true, false, ◌&&◌, some, List, [], ◌∷◌, ◌++◌, arith,
  inl, inr, Bool-cases,
}
use mathlib.Core.Path.{subst}
use eltex_lessons.Text.{Bytes, codes, before}
use eltex_lessons.Messages.Posix.{
  ServerPlace, server_opens_first, server_opens_second, server_sends, server_receives, server_done,
  server_failed, server_undefined, ClientPlace, client_opens_first, client_opens_second,
  client_receives, client_sends, client_done, client_failed, client_undefined, State, hi, hello,
  client_leaves, client_gets, client_at, client_step,
}
use eltex_lessons.Messages.Posix.Invariant.{
  server_held, client_held, first_named, second_named, server_has, ClientHas, Sent, Fits, Inv,
  Holds,
}

-- What the invariant says of a client at `p`.
record There (p : ClientPlace) (s : State) : Type 0 where
  held : s.client_open ≡ client_held p
  read : ClientHas p s.client_read
  fits : Fits s.server p s.from_server s.from_client

Inv-There : (p : ClientPlace) (s : State) → s.client ≡ p → Inv s → There p s
Inv-There p s e i = record {
  held = i.client_open ∙ ap client_held e;
  read = subst (λ q. ClientHas q s.client_read) e i.client_read;
  fits = subst (λ q. Fits s.server q s.from_server s.from_client) e i.fits;
}

nothing_yet : (c : ClientPlace) (a b : List Bytes) → Sent c a b → c ≢ client_done → b ≡ []
nothing_yet client_opens_first a b h n = h.1
nothing_yet client_opens_second a b h n = h.1
nothing_yet client_receives a b h n = h.1
nothing_yet client_sends a b h n = h
nothing_yet client_done a b h n = absurd (n refl)
nothing_yet client_failed a b h n = h
nothing_yet client_undefined a b h n = absurd h

-- The client fails before it has sent its message.
Fits-failed :
    (p : ServerPlace) (c : ClientPlace) (a b : List Bytes)
    → Fits p c a b
    → c ≢ client_done
    → Fits p client_failed a b
Fits-failed server_opens_first c a b h n = (h.0, h.1, tt)
Fits-failed server_opens_second c a b h n = (h.0, h.1, tt)
Fits-failed server_sends c a b h n = (h.0, h.1, tt)
Fits-failed server_receives c a b h n = nothing_yet c a b h n
Fits-failed server_done c a b h n = absurd (n h)
Fits-failed server_failed c a b h n = tt
Fits-failed server_undefined c a b h n = absurd h

Fits-opened :
    (p : ServerPlace) (a b : List Bytes)
    → Fits p client_opens_first a b
    → Fits p client_opens_second a b
Fits-opened server_opens_first a b h = h
Fits-opened server_opens_second a b h = h
Fits-opened server_sends a b h = h
Fits-opened server_receives a b h = h
Fits-opened server_done a b h = absurd cc
Fits-opened server_failed a b h = h
Fits-opened server_undefined a b h = absurd h

Fits-waits :
    (p : ServerPlace) (a b : List Bytes)
    → Fits p client_opens_second a b
    → Fits p client_receives a b
Fits-waits server_opens_first a b h = h
Fits-waits server_opens_second a b h = h
Fits-waits server_sends a b h = h
Fits-waits server_receives a b h = h
Fits-waits server_done a b h = absurd cc
Fits-waits server_failed a b h = h
Fits-waits server_undefined a b h = absurd h

nonempty : (m : Bytes) (ms : List Bytes) → m ∷ ms ≢ []
nonempty m ms = λ e. cc

Fits-got :
    (p : ServerPlace) (m : Bytes) (ms b : List Bytes)
    → Fits p client_receives (m ∷ ms) b
    → (m ≡ hi) × Fits p client_sends ms b
Fits-got server_opens_first m ms b h = absurd (nonempty m ms h.0)
Fits-got server_opens_second m ms b h = absurd (nonempty m ms h.0)
Fits-got server_sends m ms b h = absurd (nonempty m ms h.0)
Fits-got server_receives m ms b h = let e = h.0 in (cc, h.1)
Fits-got server_done m ms b h = absurd cc
Fits-got server_failed m ms b (inl e) = absurd cc
Fits-got server_failed m ms b (inr e) = (cc, tt)
Fits-got server_undefined m ms b h = absurd h

Fits-sent :
    (p : ServerPlace) (a b : List Bytes)
    → Fits p client_sends a b
    → Fits p client_done a (b ++ hello ∷ [])
Fits-sent server_opens_first a b h = absurd h.2
Fits-sent server_opens_second a b h = absurd h.2
Fits-sent server_sends a b h = absurd h.2
Fits-sent server_receives a b h = ap (λ x. x ++ hello ∷ []) h
Fits-sent server_done a b h = refl
Fits-sent server_failed a b h = tt
Fits-sent server_undefined a b h = absurd h

-- A step of the client from `s` to `t` leaves what is the server's.
Inv-client :
    (s t : State)
    → Inv s
    → t.server ≡ s.server
    → t.server_open ≡ s.server_open
    → t.from_server_named ≡ s.from_server_named
    → t.from_client_named ≡ s.from_client_named
    → t.server_read ≡ s.server_read
    → t.client_open ≡ client_held t.client
    → ClientHas t.client t.client_read
    → Fits s.server t.client t.from_server t.from_client
    → Inv t
Inv-client s t i a b c d e f g h = record {
  server_open = b ∙ i.server_open ∙ ap server_held (sym a);
  client_open = f;
  first_name = c ∙ i.first_name ∙ ap first_named (sym a);
  second_name = d ∙ i.second_name ∙ ap second_named (sym a);
  server_read = e ∙ i.server_read ∙ ap server_has (sym a);
  client_read = g;
  fits = subst (λ p. Fits p t.client t.from_server t.from_client) (sym a) h;
}

client_gets-Holds :
    (ms : List Bytes) (s : State)
    → s.from_server ≡ ms
    → There client_receives s
    → Inv s
    → Holds (client_gets ms s)
unfolding client_gets before
client_gets-Holds [] s e h i = tt
client_gets-Holds (m ∷ ms) s e h i =
    let (same, fits) =
      Fits-got s.server m ms s.from_client
        (subst (λ a. Fits s.server client_receives a s.from_client) e h.fits) in
    subst (λ x. Holds (client_gets (x ∷ ms) s)) (sym same)
      (Inv-client s
        (record s { from_server = ms; client_read = some (codes "Hi!"); client = client_sends }) i
        refl refl refl refl refl h.held refl fits)

client_at-Holds :
    (p : ClientPlace) (ok : Bool) (s : State) → There p s → Inv s → Holds (client_at p ok s)
unfolding client_at
client_at-Holds client_opens_first ok s h i = elim (Bool-cases (ok && s.from_server_named)) [
  | inl e ↦ rw e (
      Inv-client s (record s { client_open = s.client_open + 1; client = client_opens_second }) i
        refl refl refl refl refl (omega (arith, h.held)) h.read
        (Fits-opened s.server s.from_server s.from_client h.fits))
  | inr e ↦ rw e (
      Inv-client s (record s { client = client_failed }) i refl refl refl refl refl h.held
        (inl h.read)
        (Fits-failed s.server client_opens_first s.from_server s.from_client h.fits (λ x. cc)))
]
client_at-Holds client_opens_second ok s h i = elim (Bool-cases (ok && s.from_client_named)) [
  | inl e ↦ rw e (
      Inv-client s (record s { client_open = s.client_open + 1; client = client_receives }) i refl
        refl refl refl refl (omega (arith, h.held)) h.read
        (Fits-waits s.server s.from_server s.from_client h.fits))
  | inr e ↦ rw e (
      Inv-client s (record s { client_open = s.client_open - 1; client = client_failed }) i refl
        refl refl refl refl (omega (arith, h.held)) (inl h.read)
        (Fits-failed s.server client_opens_second s.from_server s.from_client h.fits (λ x. cc)))
]
client_at-Holds client_receives true s h i = client_gets-Holds s.from_server s refl h i
client_at-Holds client_receives false s h i =
    Inv-client s (client_leaves client_failed s) i refl refl refl refl refl (omega (arith, h.held))
      (inl h.read)
      (Fits-failed s.server client_receives s.from_server s.from_client h.fits (λ x. cc))
client_at-Holds client_sends true s h i =
    Inv-client s
      (client_leaves client_done (record s { from_client = s.from_client ++ hello ∷ [] })) i refl
      refl refl refl refl (omega (arith, h.held)) h.read
      (Fits-sent s.server s.from_server s.from_client h.fits)
client_at-Holds client_sends false s h i =
    Inv-client s (client_leaves client_failed s) i refl refl refl refl refl (omega (arith, h.held))
      (inr h.read) (Fits-failed s.server client_sends s.from_server s.from_client h.fits (λ x. cc))
client_at-Holds client_done ok s h i = tt
client_at-Holds client_failed ok s h i = tt
client_at-Holds client_undefined ok s h i = tt

pub client_step-Holds : (ok : Bool) (s : State) → Inv s → Holds (client_step ok s)
unfolding client_step
client_step-Holds ok s i = client_at-Holds s.client ok s (Inv-There s.client s refl i) i
