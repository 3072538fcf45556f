-- ===== src/Messages/SystemV/Steps.antt =====
-- Messages/Vsistem: a step of the server or of the client keeps the invariant.
use eltex_lessons.Base.{
  ◌≡◌, ◌≢◌, refl, sym, ◌∙◌, ap, Bool, true, false, ◌&&◌, Option, none, some, List, [], ◌∷◌, ◌++◌,
  inl, inr, Bool-cases, arith,
}
use eltex_lessons.Text.{before}
use eltex_lessons.Messages.SystemV.{
  Message, hi, hello, ServerPlace, server_opens, server_sends, server_receives, server_removes,
  server_done, server_failed, queue_left, ClientPlace, client_opens, client_receives, client_sends,
  client_done, client_failed, no_queue, State, first_of, server_gets, server_at, server_step,
  client_gets, client_at, client_step,
}
use eltex_lessons.Messages.SystemV.Invariant.{
  server_has, ClientHas, Absent, Empty, Sent, Fits, Inv, Holds,
}

-- The queue that the server opens, and its message in it.
opened : (c : ClientPlace) (ms : List Message) → ms ≡ [] → Absent c → Empty c true ms
opened client_opens ms e h = (refl, e)
opened client_receives ms e h = absurd h
opened client_sends ms e h = absurd h
opened client_done ms e h = absurd h
opened client_failed ms e h = absurd h
opened no_queue ms e h = (refl, e)

said : (c : ClientPlace) (b : Bool) (ms : List Message) → Empty c b ms → Sent c b (ms ++ hi ∷ [])
said client_opens b ms h = (h.0, ap (λ x. x ++ hi ∷ []) h.1)
said client_receives b ms h = (h.0, ap (λ x. x ++ hi ∷ []) h.1)
said client_sends b ms h = absurd h
said client_done b ms h = absurd h
said client_failed b ms h = h
said no_queue b ms h = (h.0, ap (λ x. x ++ hi ∷ []) h.1)

-- A message of type 2 comes from a client that is done.
answered :
    (c : ClientPlace) (b : Bool) (ms : List Message) (m : Message) (rest : List Message)
    → Sent c b ms
    → b ≡ true
    → first_of 2 ms ≡ some (m, rest)
    → (c ≡ client_done) × (m ≡ hello)
unfolding first_of
answered client_opens b ms m rest h t e = let f = ap (first_of 2) (sym h.1) ∙ e in absurd cc
answered client_receives b ms m rest h t e = let f = ap (first_of 2) (sym h.1) ∙ e in absurd cc
answered client_sends b ms m rest h t e = let f = ap (first_of 2) (sym h.1) ∙ e in absurd cc
answered client_done b ms m rest h t e = let f = ap (first_of 2) (sym h.1) ∙ e in (refl, cc)
answered client_failed b ms m rest h t e = absurd cc
answered no_queue b ms m rest h t e = let f = ap (first_of 2) (sym h.1) ∙ e in absurd cc

there : (ok b : Bool) → (ok && b) ≡ true → b ≡ true
there ok b e = ground arith

server_gets-Holds :
    (r : Option (Message × List Message)) (s : State)
    → first_of 2 s.queue ≡ r
    → s.exists ≡ true
    → Sent s.client s.exists s.queue
    → ClientHas s.client s.client_read
    → Holds (server_gets r s)
unfolding server_gets before
server_gets-Holds none s e t h c = tt
server_gets-Holds (some (m, ms)) s e t h c =
    let (done, same) = answered s.client s.exists s.queue m ms h t e in
    record { server_read = ap (λ x. some (before 0 x.mtext)) same; client_read = c; fits = done }

server_at-Holds :
    (p : ServerPlace) (ok : Bool) (s : State)
    → s.server_read ≡ server_has p
    → ClientHas s.client s.client_read
    → Fits p s.client s.exists s.queue
    → Holds (server_at p ok s)
unfolding server_at
server_at-Holds server_opens true s r c h = record {
  server_read = r;
  client_read = c;
  fits = opened s.client s.queue h.1 h.2;
}
server_at-Holds server_opens false s r c h = record { server_read = r; client_read = c; fits = h.0 }
server_at-Holds server_sends ok s r c h = elim (Bool-cases (ok && s.exists)) [
  | inl e ↦
      rw e (record { server_read = r; client_read = c; fits = said s.client s.exists s.queue h })
  | inr e ↦ rw e (record { server_read = r; client_read = c; fits = refl })
]
server_at-Holds server_receives ok s r c h = elim (Bool-cases (ok && s.exists)) [
  | inl e ↦ rw e (server_gets-Holds (first_of 2 s.queue) s refl (there ok s.exists e) h c)
  | inr e ↦ rw e (record { server_read = r; client_read = c; fits = refl })
]
server_at-Holds server_removes ok s r c h = elim (Bool-cases (ok && s.exists)) [
  | inl e ↦ rw e (record { server_read = r; client_read = c; fits = (refl, h) })
  | inr e ↦ rw e (record { server_read = r; client_read = c; fits = h })
]
server_at-Holds server_done ok s r c h = tt
server_at-Holds server_failed ok s r c h = tt
server_at-Holds queue_left ok s r c h = tt

pub server_step-Holds : (ok : Bool) (s : State) → Inv s → Holds (server_step ok s)
unfolding server_step
server_step-Holds ok s i = server_at-Holds s.server ok s i.server_read i.client_read i.fits

found_queue :
    (p : ServerPlace) (b : Bool) (ms : List Message)
    → Fits p client_opens b ms
    → b ≡ true
    → Fits p client_receives b ms
found_queue server_opens b ms h t = let e = h.0 in absurd cc
found_queue server_sends b ms h t = h
found_queue server_receives b ms h t = h
found_queue server_removes b ms h t = absurd cc
found_queue server_done b ms h t = let e = h.1 in absurd cc
found_queue server_failed b ms h t = h
found_queue queue_left b ms h t = absurd cc

found_none :
    (p : ServerPlace) (b : Bool) (ms : List Message)
    → Fits p client_opens b ms
    → Fits p no_queue b ms
found_none server_opens b ms h = h
found_none server_sends b ms h = h
found_none server_receives b ms h = h
found_none server_removes b ms h = absurd cc
found_none server_done b ms h = let e = h.1 in absurd cc
found_none server_failed b ms h = h
found_none queue_left b ms h = absurd cc

greeted :
    (p : ServerPlace) (b : Bool) (ms : List Message) (m : Message) (rest : List Message)
    → Fits p client_receives b ms
    → b ≡ true
    → first_of 1 ms ≡ some (m, rest)
    → (m ≡ hi) × Fits p client_sends b rest
unfolding first_of
greeted server_opens b ms m rest h t e = absurd h.2
greeted server_sends b ms m rest h t e = let f = ap (first_of 1) (sym h.1) ∙ e in absurd cc
greeted server_receives b ms m rest h t e = let f = ap (first_of 1) (sym h.1) ∙ e in (cc, (t, cc))
greeted server_removes b ms m rest h t e = absurd cc
greeted server_done b ms m rest h t e = let f = h.1 in absurd cc
greeted server_failed b ms m rest h t e = absurd cc
greeted queue_left b ms m rest h t e = absurd cc

-- A client that has opened the queue removes it.
removed :
    (p : ServerPlace) (c : ClientPlace) (b : Bool) (ms : List Message)
    → Fits p c b ms
    → (Absent c → ⊥)
    → c ≢ client_done
    → Fits p client_failed false ms
removed server_opens c b ms h n k = absurd (n h.2)
removed server_sends c b ms h n k = refl
removed server_receives c b ms h n k = refl
removed server_removes c b ms h n k = absurd (k h)
removed server_done c b ms h n k = absurd (k h.1)
removed server_failed c b ms h n k = refl
removed queue_left c b ms h n k = absurd (k h)

replied :
    (p : ServerPlace) (b : Bool) (ms : List Message)
    → Fits p client_sends b ms
    → Fits p client_done b (ms ++ hello ∷ [])
replied server_opens b ms h = absurd h.2
replied server_sends b ms h = absurd h
replied server_receives b ms h = (h.0, ap (λ x. x ++ hello ∷ []) h.1)
replied server_removes b ms h = refl
replied server_done b ms h = (h.0, refl)
replied server_failed b ms h = h
replied queue_left b ms h = refl

client_gets-Holds :
    (r : Option (Message × List Message)) (s : State)
    → first_of 1 s.queue ≡ r
    → s.exists ≡ true
    → Fits s.server client_receives s.exists s.queue
    → s.server_read ≡ server_has s.server
    → Holds (client_gets r s)
unfolding client_gets before
client_gets-Holds none s e t h r = tt
client_gets-Holds (some (m, ms)) s e t h r =
    let (same, fits) = greeted s.server s.exists s.queue m ms h t e in
    record { server_read = r; client_read = ap (λ x. some (before 0 x.mtext)) same; fits = fits }

client_at-Holds :
    (p : ClientPlace) (ok : Bool) (s : State)
    → s.server_read ≡ server_has s.server
    → ClientHas p s.client_read
    → Fits s.server p s.exists s.queue
    → Holds (client_at p ok s)
unfolding client_at
client_at-Holds client_opens ok s r c h = elim (Bool-cases (ok && s.exists)) [
  | inl e ↦ rw e (record {
    server_read = r;
    client_read = c;
    fits = found_queue s.server s.exists s.queue h (there ok s.exists e);
  })
  | inr e ↦
      rw e
        (record { server_read = r; client_read = c; fits = found_none s.server s.exists s.queue h })
]
client_at-Holds client_receives ok s r c h = elim (Bool-cases (ok && s.exists)) [
  | inl e ↦ rw e (client_gets-Holds (first_of 1 s.queue) s refl (there ok s.exists e) h r)
  | inr e ↦ rw e (record {
    server_read = r;
    client_read = inl c;
    fits = removed s.server client_receives s.exists s.queue h (λ x. x) (λ x. cc);
  })
]
client_at-Holds client_sends ok s r c h = elim (Bool-cases (ok && s.exists)) [
  | inl e ↦
      rw e (record { server_read = r; client_read = c; fits = replied s.server s.exists s.queue h })
  | inr e ↦ rw e (record {
    server_read = r;
    client_read = inr c;
    fits = removed s.server client_sends s.exists s.queue h (λ x. x) (λ x. cc);
  })
]
client_at-Holds client_done ok s r c h = tt
client_at-Holds client_failed ok s r c h = tt
client_at-Holds no_queue ok s r c h = tt

pub client_step-Holds : (ok : Bool) (s : State) → Inv s → Holds (client_step ok s)
unfolding client_step
client_step-Holds ok s i = client_at-Holds s.client ok s i.server_read i.client_read i.fits
