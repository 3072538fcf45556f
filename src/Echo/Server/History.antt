-- ===== src/Echo/Server/History.antt =====
-- The table of clients as a map from addresses to the number of the next message.
use eltex_lessons.Base.{
  ℕ, zero, suc, ◌+◌, ◌-◌, ◌≤◌, ◌<◌, ◌≡◌, refl, ◌∙◌, ap, Bool, false, ◌&&◌, Option, none, some, [],
  ◌∷◌, ◌++◌, arith, ◌==◌, length, get_or, set, take, if◌then◌else◌, Option-cases, inl, inr,
}
use eltex_lessons.Echo.Server.{
  Client, History, max_history, blank, is_client, find_client, shift_down, remove_client,
}

-- The number that the next message from an address will get; `none` for an unknown address.
unfoldable pub next_number : ℕ → ℕ → History → Option ℕ
next_number ip port [] = none
next_number ip port (c ∷ h) = if is_client ip port c then some c.number else next_number ip port h

abbrev pub same_address : ℕ → ℕ → ℕ → ℕ → Bool
same_address ip port ip' port' = ip == ip' && port == port'

-- No address stands in the table twice.
abbrev pub Unique : History → Type 0
Unique [] = Unit
Unique (c ∷ h) = (next_number c.ip_addr c.port h ≡ none) × Unique h

pub record IsHistory (h : History) : Type 0 where
  pub fits : length h ≤ max_history
  pub unique : Unique h

-- The table without the entry at an index.
unfoldable pub erase_at : History → ℕ → History
erase_at [] i = []
erase_at (c ∷ h) zero = h
erase_at (c ∷ h) (suc i) = c ∷ erase_at h i

shift_down-cons :
    (n i j : ℕ) (c : Client) (h : History)
    → j ≡ suc i
    → shift_down n j (c ∷ h) ≡ c ∷ shift_down n i h
unfolding shift_down
shift_down-cons zero i j c h e = refl
shift_down-cons (suc n) i j c h e =
    rw e (
      rw (step) (shift_down-cons n (i + 1) (suc (i + 1)) c (set h i (get_or h (i + 1) blank)) refl))
  where
    step : suc i + 1 ≡ suc (i + 1)
    step = omega arith

shift_down_zero : (c : Client) (h : History) → take (length h) (shift_down (length h) 0 (c ∷ h)) ≡ h
unfolding shift_down
shift_down_zero c [] = refl
shift_down_zero c (d ∷ h) =
    rw (shift_down-cons (length h) 0 (0 + 1) d (d ∷ h) (omega arith))
      (ap (λ t. d ∷ t) (shift_down_zero d h))

shift_down_by :
    (h : History) (i n m : ℕ)
    → length h ≡ suc m
    → m ≡ i + n
    → take m (shift_down n i h) ≡ erase_at h i
unfolding erase_at
shift_down_by [] i n m e f = absurd (omega arith)
shift_down_by (c ∷ h) zero n m e f =
    let e' : m ≡ length h = omega arith in
    let f' : n ≡ length h = omega arith in rw (e', f') (shift_down_zero c h)
shift_down_by (c ∷ h) (suc i) n zero e f = absurd (omega arith)
shift_down_by (c ∷ h) (suc i) n (suc m) e f =
    rw (shift_down-cons n i (suc i) c h refl)
      (ap (λ t. c ∷ t) (shift_down_by h i n m (omega arith) (omega arith)))

-- The loop of `remove_client` takes out the entry at the index, and keeps the others in order.
shift_down-erase_at :
    (h : History) (i : ℕ)
    → i < length h
    → take (length h - 1) (shift_down (length h - 1 - i) i h) ≡ erase_at h i
shift_down-erase_at h i lt =
    shift_down_by h i (length h - 1 - i) (length h - 1) (omega arith) (omega arith)

pub find_none :
    (ip port : ℕ) (h : History) → find_client ip port h ≡ none → next_number ip port h ≡ none
unfolding find_client next_number
find_none ip port [] e = refl
find_none ip port (c ∷ h) e = ground (arith, find_none ip port h)

pub find_lt : (ip port : ℕ) (h : History) (i : ℕ) → find_client ip port h ≡ some i → i < length h
unfolding find_client
find_lt ip port [] i e = cc
find_lt ip port (c ∷ h) zero e = omega arith
find_lt ip port (c ∷ h) (suc i) e = ground (arith, find_lt ip port h i)

pub find_number :
    (ip port : ℕ) (h : History) (i : ℕ)
    → find_client ip port h ≡ some i
    → next_number ip port h ≡ some (get_or h i blank).number
unfolding find_client next_number
find_number ip port [] i e = cc
find_number ip port (c ∷ h) zero e = ground arith
find_number ip port (c ∷ h) (suc i) e = ground (arith, find_number ip port h i)

-- An entry whose counter has gone up.
abbrev pub counted : Client → Client
counted c = record c { number = c.number + 1 }

pub next_number-counted :
    (ip port ip' port' : ℕ) (h : History) (i : ℕ)
    → find_client ip port h ≡ some i
    → next_number ip' port' (set h i (counted (get_or h i blank))) ≡ (
        if same_address ip port ip' port'
        then some ((get_or h i blank).number + 1)
        else next_number ip' port' h)
unfolding find_client next_number
next_number-counted ip port ip' port' [] i e = cc
next_number-counted ip port ip' port' (c ∷ h) zero e = ground arith
next_number-counted ip port ip' port' (c ∷ h) (suc i) e =
    ground (arith, next_number-counted ip port ip' port' h i)

next_number-set-none :
    (ip port : ℕ) (h : History) (i : ℕ)
    → next_number ip port h ≡ none
    → next_number ip port (set h i (counted (get_or h i blank))) ≡ none
unfolding next_number
next_number-set-none ip port [] i e = refl
next_number-set-none ip port (c ∷ h) zero e = ground arith
next_number-set-none ip port (c ∷ h) (suc i) e = ground (arith, next_number-set-none ip port h i)

pub set-Unique : (h : History) (i : ℕ) → Unique h → Unique (set h i (counted (get_or h i blank)))
set-Unique [] i u = tt
set-Unique (c ∷ h) zero u = u
set-Unique (c ∷ h) (suc i) u = (next_number-set-none c.ip_addr c.port h i u.0, set-Unique h i u.1)

next_number-erase_at :
    (ip port ip' port' : ℕ) (h : History) (i : ℕ)
    → Unique h
    → find_client ip port h ≡ some i
    → next_number ip' port' (erase_at h i)
      ≡ (if same_address ip port ip' port' then none else next_number ip' port' h)
unfolding find_client next_number erase_at
next_number-erase_at ip port ip' port' [] i u e = cc
next_number-erase_at ip port ip' port' (c ∷ h) zero u e = ground (arith, u.0)
next_number-erase_at ip port ip' port' (c ∷ h) (suc i) u e =
    ground (arith, next_number-erase_at ip port ip' port' h i u.1)

erase_at-none :
    (ip port : ℕ) (h : History) (i : ℕ)
    → next_number ip port h ≡ none
    → next_number ip port (erase_at h i) ≡ none
unfolding next_number erase_at
erase_at-none ip port [] i e = refl
erase_at-none ip port (c ∷ h) zero e = ground arith
erase_at-none ip port (c ∷ h) (suc i) e = ground (arith, erase_at-none ip port h i)

erase_at-Unique : (h : History) (i : ℕ) → Unique h → Unique (erase_at h i)
unfolding erase_at
erase_at-Unique [] i u = tt
erase_at-Unique (c ∷ h) zero u = u.1
erase_at-Unique (c ∷ h) (suc i) u =
    (erase_at-none c.ip_addr c.port h i u.0, erase_at-Unique h i u.1)

length-erase_at : (h : History) (i : ℕ) → length (erase_at h i) ≤ length h
unfolding erase_at
length-erase_at [] i = omega arith
length-erase_at (c ∷ h) zero = omega arith
length-erase_at (c ∷ h) (suc i) = omega (arith, length-erase_at h i)

pub next_number-append :
    (ip port : ℕ) (h : History) (c : Client)
    → next_number ip port (h ++ c ∷ []) ≡ elim (next_number ip port h) [
      | some n ↦ some n
      | none ↦ if is_client ip port c then some c.number else none
    ]
unfolding next_number
next_number-append ip port [] c = ground arith
next_number-append ip port (d ∷ h) c = ground (arith, next_number-append ip port h c)

next_number-cons_none :
    (ip port : ℕ) (d : Client) (h : History)
    → next_number ip port (d ∷ h) ≡ none
    → (is_client ip port d ≡ false) × (next_number ip port h ≡ none)
unfolding next_number
next_number-cons_none ip port d h e = ground arith

pub append-Unique :
    (h : History) (c : Client)
    → next_number c.ip_addr c.port h ≡ none
    → Unique h
    → Unique (h ++ c ∷ [])
append-Unique [] c e u = (unfold next_number in refl, tt)
append-Unique (d ∷ h) c e u = (
  next_number-append d.ip_addr d.port h c
      ∙ rw (u.0) (apart (next_number-cons_none c.ip_addr c.port d h e).0),
  append-Unique h c (next_number-cons_none c.ip_addr c.port d h e).1 u.1,
)
  where
    apart :
        is_client c.ip_addr c.port d ≡ false
        → (if is_client d.ip_addr d.port c then some c.number else none) ≡ none
    apart e' = ground arith

remove_client_lem :
    (ip port : ℕ) (h : History)
    → remove_client ip port h ≡ elim (find_client ip port h) [ none ↦ h | some i ↦ erase_at h i ]
unfolding remove_client
remove_client_lem ip port h = elim (Option-cases (find_client ip port h)) [
  | inl e ↦ rw (e, remove_client)
  | inr (i, e) ↦ rw (e, remove_client) (shift_down-erase_at h i (find_lt ip port h i e))
]

-- In a table with no address twice, `remove_client` forgets the address, and no other; an
-- unknown address changes nothing.
pub next_number-remove_client :
    (ip port ip' port' : ℕ) (h : History)
    → Unique h
    → next_number ip' port' (remove_client ip port h)
      ≡ (if same_address ip port ip' port' then none else next_number ip' port' h)
next_number-remove_client ip port ip' port' h u =
    rw (remove_client_lem ip port h) (elim (Option-cases (find_client ip port h)) [
      | inl e ↦ rw e (known_none (find_none ip port h e))
      | inr (i, e) ↦ rw e (next_number-erase_at ip port ip' port' h i u e)
    ])
  where
    known_none :
        next_number ip port h ≡ none
        → next_number ip' port' h
          ≡ (if same_address ip port ip' port' then none else next_number ip' port' h)
    known_none e = ground arith

pub remove_client-IsHistory :
    (ip port : ℕ) (h : History) → IsHistory h → IsHistory (remove_client ip port h)
remove_client-IsHistory ip port h v =
    rw (remove_client_lem ip port h) (elim (Option-cases (find_client ip port h)) [
      | inl e ↦ rw e v
      | inr (i, e) ↦ rw e (record {
        fits = omega (arith, length-erase_at h i, v.fits);
        unique = erase_at-Unique h i v.unique;
      })
    ])
