-- ===== src/DataTransfer/Receipts.antt =====
-- DataTransfer: which datagrams the clients show, and when they end.
use eltex_lessons.Base.{
  ℕ, zero, suc, ◌+◌, ◌≤◌, ◌<◌, ◌≡◌, refl, sym, ◌∙◌, ap, Bool, true, false, ◌||◌, Option, none, some,
  List, [], ◌∷◌, arith, leb, replicate, ◌&&◌, length, if◌then◌else◌, Bool-cases, inl, inr,
}
use eltex_lessons.Text.{Bytes, before}
use eltex_lessons.DataTransfer.{
  receipts, Lines, add_line, multicast_loop, broadcast_loop, message, send_loop,
}

-- The datagrams among what recvfrom returns, all of them and those before the first error.
abbrev pub heard : List Bytes → List Bytes
heard [] = []
heard ([] ∷ rs) = heard rs
heard ((c ∷ s) ∷ rs) = (c ∷ s) ∷ heard rs

abbrev pub lead : List Bytes → List Bytes
lead [] = []
lead ([] ∷ rs) = []
lead ((c ∷ s) ∷ rs) = (c ∷ s) ∷ lead rs

abbrev pub has_error : List Bytes → Bool
has_error [] = false
has_error ([] ∷ rs) = true
has_error ((c ∷ s) ∷ rs) = has_error rs

-- Lines with the numbers behind `n`, up to the `k`-th.
abbrev pub numbered_lines : ℕ → ℕ → List Bytes → Lines
numbered_lines n zero rs = []
numbered_lines n (suc k) [] = []
numbered_lines n (suc k) (r ∷ rs) = (n + 1, before 0 r) ∷ numbered_lines (n + 1) k rs

abbrev pub first_lines : ℕ → ℕ → Bool → List Bytes → Option Lines
first_lines n k over rs = if leb k (length rs) || over then some (numbered_lines n k rs) else none

first_lines_next :
    (n k : ℕ) (over : Bool) (r : Bytes) (rs : List Bytes)
    → add_line (n + 1, before 0 r) (first_lines (n + 1) k over rs)
      ≡ first_lines n (suc k) over (r ∷ rs)
first_lines_next n k over r rs = ground arith

no_more : (n : ℕ) (over : Bool) (rs : List Bytes) → first_lines n 0 over rs ≡ some []
no_more n over rs = ground arith

few : (n k : ℕ) (rs : List Bytes) → length rs < k → first_lines n k false rs ≡ none
few n k rs h = ground arith

broken : (n k : ℕ) → first_lines n k true [] ≡ some []
broken n zero = refl
broken n (suc k) = ground arith

more : (r k : ℕ) → r + suc k ≡ receipts → leb receipts r ≡ false
more r k h = ground arith

enough : (r : ℕ) → r + 0 ≡ receipts → leb receipts r ≡ true
enough r h = ground arith

broadcast_loop_from :
    (r k : ℕ) (rs : List Bytes)
    → r + k ≡ receipts
    → broadcast_loop r rs ≡ first_lines r k false (heard rs)
unfolding broadcast_loop
broadcast_loop_from r zero [] h = rw (enough r h) refl
broadcast_loop_from r zero ([] ∷ rs) h = rw (enough r h) (sym (no_more r false (heard rs)))
broadcast_loop_from r zero ((c ∷ s) ∷ rs) h =
    rw (enough r h) (sym (no_more r false ((c ∷ s) ∷ heard rs)))
broadcast_loop_from r (suc k) [] h = rw (more r k h) (sym (few r (suc k) [] (omega arith)))
broadcast_loop_from r (suc k) ([] ∷ rs) h = rw (more r k h) (broadcast_loop_from r (suc k) rs h)
broadcast_loop_from r (suc k) ((c ∷ s) ∷ rs) h = rw (more r k h) (
    ap (add_line (r + 1, before 0 (c ∷ s))) (broadcast_loop_from (r + 1) k rs (omega (arith, h)))
    ∙ first_lines_next r k false (c ∷ s) (heard rs))

multicast_loop_from :
    (r k : ℕ) (rs : List Bytes)
    → r + k ≡ receipts
    → multicast_loop r rs ≡ first_lines r k (has_error rs) (lead rs)
unfolding multicast_loop
multicast_loop_from r zero [] h = rw (enough r h) refl
multicast_loop_from r zero ([] ∷ rs) h = refl
multicast_loop_from r zero ((c ∷ s) ∷ rs) h =
    rw (enough r h) (sym (no_more r (has_error rs) ((c ∷ s) ∷ lead rs)))
multicast_loop_from r (suc k) [] h = rw (more r k h) (sym (few r (suc k) [] (omega arith)))
multicast_loop_from r (suc k) ([] ∷ rs) h = sym (broken r (suc k))
multicast_loop_from r (suc k) ((c ∷ s) ∷ rs) h = rw (more r k h) (
    ap (add_line (r + 1, before 0 (c ∷ s))) (multicast_loop_from (r + 1) k rs (omega (arith, h)))
    ∙ first_lines_next r k (has_error rs) (c ∷ s) (lead rs))

-- The client of Broadcast shows the first ten datagrams, numbered_lines from 1, passes over errors
-- of recvfrom, and ends when it has ten. The client of Multicast shows those before the first
-- error, at most ten, and ends at that error or when it has ten. Before that each waits.
pub receipts_lem :
    (rs : List Bytes)
    → (broadcast_loop 0 rs ≡ first_lines 0 receipts false (heard rs))
      × (multicast_loop 0 rs ≡ first_lines 0 receipts (has_error rs) (lead rs))
receipts_lem rs = (broadcast_loop_from 0 receipts rs refl, multicast_loop_from 0 receipts rs refl)

-- Every call of sendto succeeds.
abbrev pub all_sent : List Bool → Bool
all_sent [] = true
all_sent (b ∷ bs) = b && all_sent bs

heard-send_loop : (n : ℕ) (oks : List Bool) → heard (send_loop n oks) ≡ send_loop n oks
unfolding send_loop
heard-send_loop zero oks = refl
heard-send_loop (suc n) [] = refl
heard-send_loop (suc n) (true ∷ oks) = ap (λ rs. message ∷ rs) (heard-send_loop n oks)
heard-send_loop (suc n) (false ∷ oks) = heard-send_loop n oks

lead-send_loop :
    (n : ℕ) (oks : List Bool)
    → (lead (send_loop n oks) ≡ send_loop n oks) × (has_error (send_loop n oks) ≡ false)
unfolding send_loop
lead-send_loop zero oks = (refl, refl)
lead-send_loop (suc n) [] = (refl, refl)
lead-send_loop (suc n) (true ∷ oks) =
    let (e, f) = lead-send_loop n oks in (ap (λ rs. message ∷ rs) e, f)
lead-send_loop (suc n) (false ∷ oks) = lead-send_loop n oks

send_loop_all :
    (n : ℕ) (oks : List Bool)
    → length oks ≡ n
    → all_sent oks ≡ true
    → send_loop n oks ≡ replicate n message
unfolding send_loop
send_loop_all zero oks h e = refl
send_loop_all (suc n) [] h e = absurd (omega arith)
send_loop_all (suc n) (true ∷ oks) h e =
    ap (λ rs. message ∷ rs) (send_loop_all n oks (omega (arith, h)) e)
send_loop_all (suc n) (false ∷ oks) h e = absurd cc

length-send_loop : (n : ℕ) (oks : List Bool) → length (send_loop n oks) ≤ n
unfolding send_loop
length-send_loop zero oks = omega arith
length-send_loop (suc n) [] = omega arith
length-send_loop (suc n) (true ∷ oks) = omega (arith, length-send_loop n oks)
length-send_loop (suc n) (false ∷ oks) = omega (arith, length-send_loop n oks)

send_loop_some :
    (n : ℕ) (oks : List Bool) → length oks ≡ n → all_sent oks ≡ false → length (send_loop n oks) < n
unfolding send_loop
send_loop_some zero [] h e = absurd cc
send_loop_some zero (b ∷ oks) h e = absurd (omega arith)
send_loop_some (suc n) [] h e = absurd (omega arith)
send_loop_some (suc n) (true ∷ oks) h e = omega (arith, send_loop_some n oks (omega (arith, h)) e)
send_loop_some (suc n) (false ∷ oks) h e = omega (arith, length-send_loop n oks)

sent_lines :
    (oks : List Bool)
    → length oks ≡ receipts
    → first_lines 0 receipts false (send_loop receipts oks) ≡ (
        if all_sent oks
        then some (numbered_lines 0 receipts (replicate receipts message))
        else none)
sent_lines oks h = elim (Bool-cases (all_sent oks)) [
  | inl e ↦ rw e (ap (first_lines 0 receipts false) (send_loop_all receipts oks h e))
  | inr e ↦ rw e (few 0 receipts (send_loop receipts oks) (send_loop_some receipts oks h e))
]

-- A client that hears what its server sends, and nothing else and no error, shows ten messages and
-- ends if all ten calls of sendto have succeeded; and if one has failed, it waits for ever.
pub served_lem :
    (oks : List Bool)
    → length oks ≡ receipts
    → (broadcast_loop 0 (send_loop receipts oks) ≡ (
        if all_sent oks
        then some (numbered_lines 0 receipts (replicate receipts message))
        else none))
      × (multicast_loop 0 (send_loop receipts oks) ≡ (
          if all_sent oks
          then some (numbered_lines 0 receipts (replicate receipts message))
          else none))
served_lem oks h =
    let (lead_all, no_error) = lead-send_loop receipts oks in
    (
      (receipts_lem (send_loop receipts oks)).0
          ∙ ap (first_lines 0 receipts false) (heard-send_loop receipts oks)
          ∙ sent_lines oks h,
      (receipts_lem (send_loop receipts oks)).1
          ∙ ap (λ b. first_lines 0 receipts b (lead (send_loop receipts oks))) no_error
          ∙ ap (first_lines 0 receipts false) lead_all
          ∙ sent_lines oks h,
    )
