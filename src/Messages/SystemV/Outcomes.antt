-- ===== src/Messages/SystemV/Outcomes.antt =====
-- Messages/Vsistem: how the two programs end.
use eltex_lessons.Base.{
  ◌≡◌, ◌≢◌, refl, sym, ◌∙◌, ap, Bool, true, false, Option, none, some, List, ◌⊎◌, inl, inr, arith,
}
use mathlib.Core.Path.{subst}
use eltex_lessons.Text.{Bytes, codes}
use eltex_lessons.Messages.SystemV.{
  Message, ServerPlace, server_opens, server_sends, server_receives, server_removes, server_done,
  server_failed, queue_left, ClientPlace, client_opens, client_receives, client_sends, client_done,
  client_failed, no_queue, State, first_of, server_gets, server_at, server_step, client_gets,
  client_at, client_step, Reach, begin, by_server, by_client,
}
use eltex_lessons.Messages.SystemV.Invariant.{server_has, ClientHas, Fits, Inv, Holds}
use eltex_lessons.Messages.SystemV.Steps.{server_step-Holds, client_step-Holds}

Reach-Inv : {s : State} → Reach s → Inv s
Reach-Inv begin = record { server_read = refl; client_read = refl; fits = (refl, refl, tt) }
Reach-Inv (by_server {s} {t} r ok e) = subst Holds e (server_step-Holds ok s (Reach-Inv r))
Reach-Inv (by_client {s} {t} r ok e) = subst Holds e (client_step-Holds ok s (Reach-Inv r))

-- The programs have ended, or the server waits for a client that has found no queue.
pub data Ending : ServerPlace → ClientPlace → Type 0 where
  both_done : Ending server_done client_done
  not_removed : Ending queue_left client_done
  server_gave_up :
      {c : ClientPlace} → c ≢ client_opens → c ≢ client_receives → Ending server_failed c
  left_alone : Ending server_receives no_queue

-- What has been read so far, what is left, and where the two can get stuck.
pub record IsOrderly (s : State) : Type 0 where
  pub server_reads : (s.server_read ≡ none) ⊎ (s.server_read ≡ some (codes "Hello!"))
  pub client_reads : (s.client_read ≡ none) ⊎ (s.client_read ≡ some (codes "Hi!"))
  pub gone : (s.server ≡ server_done) ⊎ (s.server ≡ server_failed) → s.exists ≡ false
  pub stuck : server_step true s ≡ none → client_step true s ≡ none → Ending s.server s.client

data ServerQuiet (b : Bool) (ms : List Message) : ServerPlace → Type 0 where
  done_quiet : ServerQuiet b ms server_done
  failed_quiet : ServerQuiet b ms server_failed
  left_quiet : ServerQuiet b ms queue_left
  server_waits : b ≡ true → first_of 2 ms ≡ none → ServerQuiet b ms server_receives

data ClientQuiet (b : Bool) (ms : List Message) : ClientPlace → Type 0 where
  client_over : ClientQuiet b ms client_done
  client_gave_up : ClientQuiet b ms client_failed
  client_alone : ClientQuiet b ms no_queue
  client_waits : b ≡ true → first_of 1 ms ≡ none → ClientQuiet b ms client_receives

gets_none : (r : Option (Message × List Message)) (s : State) → client_gets r s ≡ none → r ≡ none
unfolding client_gets
gets_none none s e = refl
gets_none (some x) s e = absurd cc

got_none : (r : Option (Message × List Message)) (s : State) → server_gets r s ≡ none → r ≡ none
unfolding server_gets
got_none none s e = refl
got_none (some x) s e = absurd cc

server_at-Quiet :
    (p : ServerPlace) (s : State) → server_at p true s ≡ none → ServerQuiet s.exists s.queue p
unfolding server_at
server_at-Quiet server_opens s e = absurd cc
server_at-Quiet server_sends s e = absurd (ground arith)
server_at-Quiet server_receives s e =
    server_waits (ground arith) (got_none (first_of 2 s.queue) s (ground arith))
server_at-Quiet server_removes s e = absurd (ground arith)
server_at-Quiet server_done s e = done_quiet
server_at-Quiet server_failed s e = failed_quiet
server_at-Quiet queue_left s e = left_quiet

client_at-Quiet :
    (p : ClientPlace) (s : State) → client_at p true s ≡ none → ClientQuiet s.exists s.queue p
unfolding client_at
client_at-Quiet client_opens s e = absurd (ground arith)
client_at-Quiet client_receives s e =
    client_waits (ground arith) (gets_none (first_of 1 s.queue) s (ground arith))
client_at-Quiet client_sends s e = absurd (ground arith)
client_at-Quiet client_done s e = client_over
client_at-Quiet client_failed s e = client_gave_up
client_at-Quiet no_queue s e = client_alone

both_quiet :
    (p : ServerPlace) (q : ClientPlace) (b : Bool) (ms : List Message)
    → ServerQuiet b ms p
    → ClientQuiet b ms q
    → Fits p q b ms
    → Ending p q
unfolding first_of
both_quiet server_opens q b ms w c h = elim w [ ]
both_quiet server_sends q b ms w c h = elim w [ ]
both_quiet server_removes q b ms w c h = elim w [ ]
both_quiet server_done q b ms done_quiet c h = subst (Ending server_done) (sym h.1) both_done
both_quiet queue_left q b ms left_quiet c h = subst (Ending queue_left) (sym h) not_removed
both_quiet server_failed client_opens b ms failed_quiet c h = elim c [ ]
both_quiet server_failed client_sends b ms failed_quiet c h = elim c [ ]
both_quiet server_failed client_done b ms failed_quiet client_over h =
    server_gave_up (λ e. cc) (λ e. cc)
both_quiet server_failed client_failed b ms failed_quiet client_gave_up h =
    server_gave_up (λ e. cc) (λ e. cc)
both_quiet server_failed no_queue b ms failed_quiet client_alone h =
    server_gave_up (λ e. cc) (λ e. cc)
both_quiet server_failed client_receives b ms failed_quiet (client_waits t e) h = absurd cc
both_quiet server_receives client_opens b ms w c h = elim c [ ]
both_quiet server_receives client_sends b ms w c h = elim c [ ]
both_quiet server_receives client_done b ms (server_waits t e) client_over h =
    let f = ap (first_of 2) (sym h.1) ∙ e in absurd cc
both_quiet server_receives client_failed b ms (server_waits t e) client_gave_up h = absurd cc
both_quiet server_receives no_queue b ms (server_waits t e) client_alone h = left_alone
both_quiet server_receives client_receives b ms (server_waits t e) (client_waits u f) h =
    let g = ap (first_of 1) (sym h.1) ∙ f in absurd cc

client_has :
    (q : ClientPlace) (r : Option Bytes) → ClientHas q r → (r ≡ none) ⊎ (r ≡ some (codes "Hi!"))
client_has client_opens r h = inl h
client_has client_receives r h = inl h
client_has client_sends r h = inr h
client_has client_done r h = inr h
client_has client_failed r h = h
client_has no_queue r h = inl h

server_has_lem : (p : ServerPlace) → (server_has p ≡ none) ⊎ (server_has p ≡ some (codes "Hello!"))
server_has_lem server_opens = inl refl
server_has_lem server_sends = inl refl
server_has_lem server_receives = inl refl
server_has_lem server_removes = inr refl
server_has_lem server_done = inr refl
server_has_lem server_failed = inl refl
server_has_lem queue_left = inr refl

-- However the calls of the two programs are interleaved, and whichever of them fail: the server
-- reads nothing but "Hello!", and not its own message, and the client nothing but "Hi!"; a server
-- that is done or has failed leaves no queue; and where neither can go on, both are done, or the
-- server could not remove the queue, or it has failed and the client does not wait, or the server
-- waits for a client that has not found the queue.
pub Reach-IsOrderly : (s : State) → Reach s → IsOrderly s
Reach-IsOrderly s r =
    let i : Inv s = Reach-Inv r in
    record {
      server_reads =
          subst (λ x. (x ≡ none) ⊎ (x ≡ some (codes "Hello!"))) (sym i.server_read)
            (server_has_lem s.server);
      client_reads = client_has s.client s.client_read i.client_read;
      gone = λ e. no_queue_left s.server e i.fits;
      stuck = λ e f.
          both_quiet s.server s.client s.exists s.queue
            (unfold server_step in server_at-Quiet s.server s e)
            (unfold client_step in client_at-Quiet s.client s f) i.fits;
    }
  where
    no_queue_left :
        (p : ServerPlace)
        → (p ≡ server_done) ⊎ (p ≡ server_failed)
        → Fits p s.client s.exists s.queue
        → s.exists ≡ false
    no_queue_left server_done e h = h.0
    no_queue_left server_failed e h = h
    no_queue_left server_opens (inl e) h = absurd cc
    no_queue_left server_opens (inr e) h = absurd cc
    no_queue_left server_sends (inl e) h = absurd cc
    no_queue_left server_sends (inr e) h = absurd cc
    no_queue_left server_receives (inl e) h = absurd cc
    no_queue_left server_receives (inr e) h = absurd cc
    no_queue_left server_removes (inl e) h = absurd cc
    no_queue_left server_removes (inr e) h = absurd cc
    no_queue_left queue_left (inl e) h = absurd cc
    no_queue_left queue_left (inr e) h = absurd cc
