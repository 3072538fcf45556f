-- ===== src/Messages/Posix/Exchange.antt =====
-- Messages/Posix: what the two programs read and what they leave behind.
use eltex_lessons.Base.{
  ◌≡◌, ◌≢◌, refl, ◌∙◌, ap, true, false, Option, none, some, List, [], ◌∷◌, arith, ◌⊎◌, inl, inr,
}
use mathlib.Core.Path.{subst}
use eltex_lessons.Text.{Bytes, codes}
use eltex_lessons.Messages.Posix.{
  ServerPlace, server_opens_first, server_opens_second, server_sends, server_receives, server_done,
  server_failed, server_undefined, ClientPlace, client_opens_first, client_opens_second,
  client_receives, client_sends, client_done, client_failed, client_undefined, State, start,
  server_gets, server_at, server_step, client_gets, client_at, client_step, Reach, begin, by_server,
  by_client,
}
use eltex_lessons.Messages.Posix.Invariant.{
  server_held, client_held, first_named, second_named, server_has, ClientHas, Fits, Inv, Holds,
}
use eltex_lessons.Messages.Posix.ServerSteps.{server_step-Holds}
use eltex_lessons.Messages.Posix.ClientSteps.{client_step-Holds}

begin-Inv : Inv start
begin-Inv = record {
  server_open = refl;
  client_open = refl;
  first_name = refl;
  second_name = refl;
  server_read = refl;
  client_read = refl;
  fits = (refl, refl, tt);
}

Reach-Inv : {s : State} → Reach s → Inv s
Reach-Inv begin = begin-Inv
Reach-Inv (by_server {s} {t} r ok e) = subst Holds e (server_step-Holds ok s (Reach-Inv r))
Reach-Inv (by_client {s} {t} r ok e) = subst Holds e (client_step-Holds ok s (Reach-Inv r))

-- What a program has read when it is done, and what it leaves behind when it is done or has failed.
pub record IsExchange (s : State) : Type 0 where
  pub server_defined : s.server ≢ server_undefined
  pub client_defined : s.client ≢ client_undefined
  pub server_reads : s.server ≡ server_done → s.server_read ≡ some (codes "Hello!")
  pub client_reads : s.client ≡ client_done → s.client_read ≡ some (codes "Hi!")
  pub server_clean :
      (s.server ≡ server_done) ⊎ (s.server ≡ server_failed)
      → (s.server_open ≡ 0) × (s.from_server_named ≡ false) × (s.from_client_named ≡ false)
  pub client_clean : (s.client ≡ client_done) ⊎ (s.client ≡ client_failed) → s.client_open ≡ 0
  pub stuck :
      server_step true s ≡ none
      → client_step true s ≡ none
      → ((s.server ≡ server_done) × (s.client ≡ client_done))
        ⊎ ((s.server ≡ server_failed) ⊎ (s.client ≡ client_failed))

-- A program that has no step: it has ended, or waits for a message.
data ServerQuiet (b : List Bytes) : ServerPlace → Type 0 where
  server_over : ServerQuiet b server_done
  server_gave_up : ServerQuiet b server_failed
  server_faulted : ServerQuiet b server_undefined
  server_waits : b ≡ [] → ServerQuiet b server_receives

data ClientQuiet (a : List Bytes) : ClientPlace → Type 0 where
  client_over : ClientQuiet a client_done
  client_gave_up : ClientQuiet a client_failed
  client_faulted : ClientQuiet a client_undefined
  client_waits : a ≡ [] → ClientQuiet a client_receives

server_gets-none : (ms : List Bytes) (s : State) → server_gets ms s ≡ none → ms ≡ []
unfolding server_gets
server_gets-none [] s e = refl
server_gets-none (m ∷ ms) s e = ground arith

client_gets-none : (ms : List Bytes) (s : State) → client_gets ms s ≡ none → ms ≡ []
unfolding client_gets
client_gets-none [] s e = refl
client_gets-none (m ∷ ms) s e = ground arith

server_at-Quiet :
    (p : ServerPlace) (s : State) → server_at p true s ≡ none → ServerQuiet s.from_client p
unfolding server_at
server_at-Quiet server_opens_first s e = absurd cc
server_at-Quiet server_opens_second s e = absurd cc
server_at-Quiet server_sends s e = absurd cc
server_at-Quiet server_receives s e = server_waits (server_gets-none s.from_client s e)
server_at-Quiet server_done s e = server_over
server_at-Quiet server_failed s e = server_gave_up
server_at-Quiet server_undefined s e = server_faulted

client_at-Quiet :
    (p : ClientPlace) (s : State) → client_at p true s ≡ none → ClientQuiet s.from_server p
unfolding client_at
client_at-Quiet client_opens_first s e = absurd (ground arith)
client_at-Quiet client_opens_second s e = absurd (ground arith)
client_at-Quiet client_receives s e = client_waits (client_gets-none s.from_server s e)
client_at-Quiet client_sends s e = absurd cc
client_at-Quiet client_done s e = client_over
client_at-Quiet client_failed s e = client_gave_up
client_at-Quiet client_undefined s e = client_faulted

both_quiet :
    (p : ServerPlace) (q : ClientPlace) (a b : List Bytes)
    → ServerQuiet b p
    → ClientQuiet a q
    → Fits p q a b
    → ((p ≡ server_done) × (q ≡ client_done)) ⊎ ((p ≡ server_failed) ⊎ (q ≡ client_failed))
both_quiet server_opens_first q a b w c h = elim w [ ]
both_quiet server_opens_second q a b w c h = elim w [ ]
both_quiet server_sends q a b w c h = elim w [ ]
both_quiet server_receives client_opens_first a b w c h = elim c [ ]
both_quiet server_receives client_opens_second a b w c h = elim c [ ]
both_quiet server_receives client_sends a b w c h = elim c [ ]
both_quiet server_done q a b server_over c h = inl (refl, h)
both_quiet server_failed q a b server_gave_up c h = inr (inl refl)
both_quiet server_undefined q a b server_faulted c h = absurd h
both_quiet server_receives client_done a b (server_waits e) client_over h = absurd cc
both_quiet server_receives client_failed a b (server_waits e) client_gave_up h = inr (inr refl)
both_quiet server_receives client_undefined a b (server_waits e) client_faulted h = absurd h
both_quiet server_receives client_receives a b (server_waits e) (client_waits f) h =
    let g = h.0 in absurd cc

not_faulted : (q : ClientPlace) (r : Option Bytes) → ClientHas q r → q ≢ client_undefined
not_faulted q r h = λ e. subst (λ p. ClientHas p r) e h

-- However the calls of the two programs are interleaved, and whichever of them fail: neither
-- writes outside of its buffer; a program that is done has read the message of the other; a server
-- that has ended, with success or not, has closed its queues and removed both names, and a client
-- that has ended has closed its queues; and where neither program can go on, both are done or one
-- of them has failed.
pub Reach-IsExchange : (s : State) → Reach s → IsExchange s
Reach-IsExchange s r = record {
  server_defined = λ e. subst (λ p. Fits p s.client s.from_server s.from_client) e i.fits;
  client_defined = not_faulted s.client s.client_read i.client_read;
  server_reads = λ e. i.server_read ∙ ap server_has e;
  client_reads = λ e. subst (λ p. ClientHas p s.client_read) e i.client_read;
  server_clean = λ e. ended e;
  client_clean = λ e. client_ended e;
  stuck = λ e f.
      both_quiet s.server s.client s.from_server s.from_client
        (unfold server_step in server_at-Quiet s.server s e)
        (unfold client_step in client_at-Quiet s.client s f) i.fits;
}
  where
    i : Inv s
    i = Reach-Inv r

    ended :
        (s.server ≡ server_done) ⊎ (s.server ≡ server_failed)
        → (s.server_open ≡ 0) × (s.from_server_named ≡ false) × (s.from_client_named ≡ false)
    ended (inl e) = (
      i.server_open ∙ ap server_held e,
      i.first_name ∙ ap first_named e,
      i.second_name ∙ ap second_named e,
    )
    ended (inr e) = (
      i.server_open ∙ ap server_held e,
      i.first_name ∙ ap first_named e,
      i.second_name ∙ ap second_named e,
    )

    client_ended : (s.client ≡ client_done) ⊎ (s.client ≡ client_failed) → s.client_open ≡ 0
    client_ended (inl e) = i.client_open ∙ ap client_held e
    client_ended (inr e) = i.client_open ∙ ap client_held e
