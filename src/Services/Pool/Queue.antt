-- ===== src/Services/Pool/Queue.antt =====
-- The ring is a first-in, first-out queue of at most ten clients.
use eltex_lessons.Base.{
  ℕ, zero, suc, ◌+◌, ◌-◌, ◌%◌, ◌≤◌, ◌<◌, ◌≡◌, refl, ap, Option, none, some, List, [], ◌∷◌, ◌++◌,
  arith, ltb, ◌==◌, length, get_or, set, length-set, get_or-set_self, get_or-set_ne, if◌then◌else◌,
  Bool-cases, inl, inr,
}
use eltex_lessons.Services.Pool.{
  Effect, Item, blank_item, Ring, queue_size, refusal, enqueue_client, dequeue_client,
}

pub record IsRing (q : Ring) : Type 0 where
  pub slots : length q.slots ≡ queue_size
  pub front : q.front < queue_size
  pub count : q.count ≤ queue_size
  pub rear : q.rear ≡ (q.front + q.count) % queue_size

-- The clients in `n` slots from `i` on, round the end of the array.
abbrev window : List Item → ℕ → ℕ → List Item
window xs i zero = []
window xs i (suc n) = get_or xs i blank_item ∷ window xs ((i + 1) % queue_size) n

-- The queue that a ring stands for, the oldest client first.
abbrev pub clients : Ring → List Item
clients q = window q.slots q.front q.count

next_slot : (i n : ℕ) → i < 10 → ((i + 1) % 10 + n) % 10 ≡ (i + suc n) % 10
next_slot i n h = omega arith

-- Writing at the slot behind the window appends to it.
window-set :
    (xs : List Item) (v : Item) (n i j : ℕ)
    → length xs ≡ 10
    → i < 10
    → n < 10
    → j ≡ (i + n) % 10
    → window (set xs j v) i (suc n) ≡ window xs i n ++ v ∷ []
window-set xs v zero i j len hi hn e =
    let e' : j ≡ i = omega arith in
    rw e' (ap (λ t. t ∷ []) (get_or-set_self xs i v blank_item (omega arith)))
window-set xs v (suc n) i j len hi hn e = rw (get_or-set_ne xs j i v blank_item (omega arith)) (
    ap (λ t. get_or xs i blank_item ∷ t)
      (window-set xs v n ((i + 1) % 10) j len (omega arith) (omega arith) (omega arith)))

enqueue_client-IsRing : (c : Item) (q : Ring) → IsRing q → IsRing (enqueue_client c q).0
unfolding enqueue_client
enqueue_client-IsRing c q v = ground (arith, length-set q.slots q.rear c)

dequeue_client-IsRing :
    (q q' : Ring) (c : Item) → IsRing q → dequeue_client q ≡ some (c, q') → IsRing q'
unfolding dequeue_client
dequeue_client-IsRing q q' c v e = ground arith

length-window : (xs : List Item) (i n : ℕ) → length (window xs i n) ≡ n
length-window xs i zero = refl
length-window xs i (suc n) = ap suc (length-window xs ((i + 1) % queue_size) n)

pub length-clients : (q : Ring) → length (clients q) ≡ q.count
length-clients q = length-window q.slots q.front q.count

window_pos :
    (xs : List Item) (i n m : ℕ)
    → n ≡ suc m
    → window xs i n ≡ get_or xs i blank_item ∷ window xs ((i + 1) % queue_size) m
window_pos xs i n m e = rw e

-- The outcome of `enqueue_client` for the queue of a ring.
abbrev Enqueued : Item → Ring → Ring × List Effect → Type 0
Enqueued c q (q', es) =
    IsRing q'
    × (clients q'
        ≡ (if ltb (length (clients q)) queue_size then clients q ++ c ∷ [] else clients q))
    × (es ≡ (if ltb (length (clients q)) queue_size then [] else refusal c.client_fd))

-- With fewer than ten clients the new one goes to the end and nothing is sent, otherwise the queue
-- stays and the client gets an error and is disconnected. The ring stays well formed.
pub enqueue_client_lem : (c : Item) (q : Ring) → IsRing q → Enqueued c q (enqueue_client c q)
unfolding enqueue_client
enqueue_client_lem c q v = rw (length-clients q) (elim (Bool-cases (ltb q.count queue_size)) [
  | inl room ↦
      let grown : q.count + 1 ≡ suc q.count = omega arith in
      (
        enqueue_client-IsRing c q v,
        rw room (
            rw grown
              (window-set q.slots c q.count q.front q.rear v.slots v.front (ground arith) v.rear)),
        rw room,
      )
  | inr full ↦ (enqueue_client-IsRing c q v, rw full, rw full)
])

-- The outcome of `dequeue_client` for the queue of a ring.
abbrev pub Dequeued : Ring → Option (Item × Ring) → Type 0
Dequeued q none = clients q ≡ []
Dequeued q (some (c, q')) = (clients q ≡ c ∷ clients q') × IsRing q'

-- It waits only when the queue is empty; otherwise it takes the client that has waited longest.
pub dequeue_client_lem : (q : Ring) → IsRing q → Dequeued q (dequeue_client q)
unfolding dequeue_client
dequeue_client_lem q v = elim (Bool-cases (q.count == 0)) [
  | inl empty ↦ let e : q.count ≡ 0 = ground arith in rw empty (rw e)
  | inr some_left ↦
      let back : q.count ≡ suc (q.count - 1) = ground arith in
      rw some_left (
        window_pos q.slots q.front q.count (q.count - 1) back,
        record {
          slots = v.slots;
          front = omega arith;
          count = omega (arith, v.count);
          rear = ground (arith, v.rear, v.front, v.count);
        },
      )
]
