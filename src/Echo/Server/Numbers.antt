-- ===== src/Echo/Server/Numbers.antt =====
-- The server numbers the messages of each address, whatever the others send.
use eltex_lessons.Base.{
  ℕ, ◌+◌, ◌≡◌, refl, ◌∙◌, ap, Bool, true, false, ◌&&◌, Option, none, some, List, [], ◌∷◌, ◌++◌,
  arith, leb, All, length, get_or, set, length-append, length-set, if◌then◌else◌, Bool-cases,
  Option-cases, inl, inr,
}
use eltex_lessons.Text.{Bytes, codes, before, same_text}
use eltex_lessons.Echo.Server.{
  Client, History, max_history, blank, is_client, find_client, add_client, remove_client, Datagram,
  datagram, client_shutdown, numbered, respond, handle, serve,
}
use eltex_lessons.Echo.Server.History.{
  next_number, same_address, IsHistory, find_none, find_number, counted, next_number-counted,
  set-Unique, next_number-append, append-Unique, next_number-remove_client, remove_client-IsHistory,
}

abbrev pub text_of : Datagram → Bytes
text_of d = before 0 d.text

abbrev pub is_shutdown : Datagram → Bool
is_shutdown d = same_text (text_of d) client_shutdown

-- The table after an entry for a sender that was not known, whose first message is counted.
abbrev pub first_entry : Datagram → Client
first_entry d = record { port = d.port; ip_addr = d.ip; number = 2 }

handle_shutdown :
    (d : Datagram) (h : History)
    → is_shutdown d ≡ true
    → handle d h ≡ (remove_client d.ip d.port h, [])
unfolding handle
handle_shutdown d h e = rw e

handle_known :
    (d : Datagram) (h : History) (i : ℕ)
    → is_shutdown d ≡ false
    → find_client d.ip d.port h ≡ some i
    → handle d h ≡ (
      set h i (counted (get_or h i blank)),
      datagram d.ip d.port (numbered (text_of d) (get_or h i blank).number) ∷ [],
    )
unfolding handle respond
handle_known d h i e f = rw e (rw (f, handle))

add_full :
    (ip port : ℕ) (h : History)
    → leb max_history (length h) ≡ true
    → add_client ip port h ≡ (none, h)
unfolding add_client
add_full ip port h g = rw g

abbrev fresh_entry : ℕ → ℕ → Client
fresh_entry ip port = record { port = port; ip_addr = ip; number = 1 }

add_room :
    (ip port : ℕ) (h : History)
    → leb max_history (length h) ≡ false
    → add_client ip port h ≡ (some (length h), h ++ fresh_entry ip port ∷ [])
unfolding add_client
add_room ip port h g = rw g

handle_full :
    (d : Datagram) (h : History)
    → is_shutdown d ≡ false
    → find_client d.ip d.port h ≡ none
    → leb max_history (length h) ≡ true
    → handle d h ≡ (h, datagram d.ip d.port (codes "server history is full") ∷ [])
unfolding handle
handle_full d h e f g =
    let a = add_full d.ip d.port h g in rw e (rw (f, handle) (rw (a, handle) (rw a)))

get_or-last : (h : History) (c d : Client) → get_or (h ++ c ∷ []) (length h) d ≡ c
get_or-last [] c d = refl
get_or-last (x ∷ h) c d = get_or-last h c d

set-last : (h : History) (c d : Client) → set (h ++ c ∷ []) (length h) d ≡ h ++ d ∷ []
set-last [] c d = refl
set-last (x ∷ h) c d = ap (λ t. x ∷ t) (set-last h c d)

respond-last :
    (d : Datagram) (text : Bytes) (h : History)
    → respond d text (length h) (h ++ fresh_entry d.ip d.port ∷ [])
      ≡ (h ++ first_entry d ∷ [], datagram d.ip d.port (numbered text 1) ∷ [])
unfolding respond
respond-last d text h = rw (
  get_or-last h (fresh_entry d.ip d.port) blank,
  set-last h (fresh_entry d.ip d.port) (first_entry d),
)

handle_new :
    (d : Datagram) (h : History)
    → is_shutdown d ≡ false
    → find_client d.ip d.port h ≡ none
    → leb max_history (length h) ≡ false
    → handle d h ≡ (h ++ first_entry d ∷ [], datagram d.ip d.port (numbered (text_of d) 1) ∷ [])
unfolding handle
handle_new d h e f g =
    let a = add_room d.ip d.port h g in
    rw e (rw (f, handle) (rw (a, handle) (rw a (respond-last d (text_of d) h))))

-- What a datagram does to the number of its sender.
abbrev pub number_after : Datagram → History → Option ℕ
number_after d h = if is_shutdown d then none else elim (next_number d.ip d.port h) [
  | some n ↦ some (n + 1)
  | none ↦ if leb max_history (length h) then none else some 2
]

-- What is sent back.
abbrev pub expected_reply : Datagram → History → List Datagram
expected_reply d h =
    if is_shutdown d
    then []
    else datagram d.ip d.port (elim (next_number d.ip d.port h) [
      | some n ↦ numbered (text_of d) n
      | none ↦
          if leb max_history (length h)
          then codes "server history is full"
          else numbered (text_of d) 1
    ])
      ∷ []

-- What one round of the server makes of its table, seen as a map from addresses to numbers.
pub record Handled (d : Datagram) (h : History) (r : History × List Datagram) : Type 0 where
  pub valid : IsHistory r.0
  pub numbers :
      (ip port : ℕ)
      → next_number ip port r.0
        ≡ (if same_address d.ip d.port ip port then number_after d h else next_number ip port h)
  pub replies : r.1 ≡ expected_reply d h

Handled-shutdown :
    (d : Datagram) (h : History)
    → IsHistory h
    → is_shutdown d ≡ true
    → Handled d h (remove_client d.ip d.port h, [])
Handled-shutdown d h v e = record {
  valid = remove_client-IsHistory d.ip d.port h v;
  numbers = λ ip port. rw e (next_number-remove_client d.ip d.port ip port h v.unique);
  replies = rw e;
}

Handled-known :
    (d : Datagram) (h : History) (i : ℕ)
    → IsHistory h
    → is_shutdown d ≡ false
    → find_client d.ip d.port h ≡ some i
    → Handled d h (
      set h i (counted (get_or h i blank)),
      datagram d.ip d.port (numbered (text_of d) (get_or h i blank).number) ∷ [],
    )
Handled-known d h i v e f = record {
  valid = record {
    fits = omega (arith, length-set h i (counted (get_or h i blank)), v.fits);
    unique = set-Unique h i v.unique;
  };
  numbers = λ ip port.
      rw (e, find_number d.ip d.port h i f) (next_number-counted d.ip d.port ip port h i f);
  replies = rw (e, find_number d.ip d.port h i f);
}

Handled-full :
    (d : Datagram) (h : History)
    → IsHistory h
    → is_shutdown d ≡ false
    → next_number d.ip d.port h ≡ none
    → leb max_history (length h) ≡ true
    → Handled d h (h, datagram d.ip d.port (codes "server history is full") ∷ [])
Handled-full d h v e f g = record {
  valid = v;
  numbers = λ ip port. rw (e, f, g) (same ip port);
  replies = rw (e, f, g);
}
  where
    same :
        (ip port : ℕ)
        → next_number ip port h
          ≡ (if same_address d.ip d.port ip port then none else next_number ip port h)
    same ip port = ground arith

Handled-new :
    (d : Datagram) (h : History)
    → IsHistory h
    → is_shutdown d ≡ false
    → next_number d.ip d.port h ≡ none
    → leb max_history (length h) ≡ false
    → Handled d h (h ++ first_entry d ∷ [], datagram d.ip d.port (numbered (text_of d) 1) ∷ [])
Handled-new d h v e f g = record {
  valid = record {
    fits = ground (arith, length-append h (first_entry d ∷ []));
    unique = append-Unique h (first_entry d) f v.unique;
  };
  numbers = λ ip port. rw (e, f, g) (next_number-append ip port h (first_entry d) ∙ same ip port);
  replies = rw (e, f, g);
}
  where
    same :
        (ip port : ℕ)
        → elim (next_number ip port h) [
          | some n ↦ some n
          | none ↦ if is_client ip port (first_entry d) then some 2 else none
        ]
          ≡ (if same_address d.ip d.port ip port then some 2 else next_number ip port h)
    same ip port = ground arith

-- Each round from a well-formed table keeps it so: at most 100 entries, no address twice. The
-- number of the sender goes up by one (a new sender's message is number 1, where there is room),
-- a shutdown message forgets it, and no other address is touched. The reply is the message with
-- its number, or says that the table is full; a shutdown message gets none.
pub handle_lem : (d : Datagram) (h : History) → IsHistory h → Handled d h (handle d h)
handle_lem d h v = elim (Bool-cases (is_shutdown d)) [
  | inl e ↦ rw (handle_shutdown d h e) (Handled-shutdown d h v e)
  | inr e ↦ elim (Option-cases (find_client d.ip d.port h)) [
    | inr (i, f) ↦ rw (handle_known d h i e f) (Handled-known d h i v e f)
    | inl f ↦ elim (Bool-cases (leb max_history (length h))) [
      | inl g ↦ rw (handle_full d h e f g) (Handled-full d h v e (find_none d.ip d.port h f) g)
      | inr g ↦ rw (handle_new d h e f g) (Handled-new d h v e (find_none d.ip d.port h f) g)
    ]
  ]
]

-- The messages that an address sends.
abbrev pub count_from : ℕ → ℕ → List Datagram → ℕ
count_from ip port [] = 0
count_from ip port (d ∷ ds) =
    (if same_address d.ip d.port ip port then 1 else 0) + count_from ip port ds

-- The address does not sign off.
abbrev pub Stays : ℕ → ℕ → List Datagram → Type 0
Stays ip port = All (λ d. same_address d.ip d.port ip port && is_shutdown d ≡ false)

serve-cons :
    (d : Datagram) (ds : List Datagram) (h : History)
    → serve (d ∷ ds) h
      ≡ ((serve ds (handle d h).0).0, (handle d h).1 ++ (serve ds (handle d h).0).1)
unfolding serve
serve-cons d ds h = refl

number_step :
    (d : Datagram) (ip port n : ℕ) (h : History)
    → (same_address d.ip d.port ip port && is_shutdown d) ≡ false
    → next_number ip port h ≡ some n
    → (if same_address d.ip d.port ip port then number_after d h else next_number ip port h)
      ≡ some (n + (if same_address d.ip d.port ip port then 1 else 0))
number_step d ip port n h stays known = ground arith

-- From a well-formed table, however the datagrams of the clients are interleaved, and whether
-- the table is full or some of the others come and go: a known address that does not sign off
-- has its number raised by exactly the messages that it sent.
pub serve_number :
    (ds : List Datagram) (ip port n : ℕ) (h : History)
    → IsHistory h
    → Stays ip port ds
    → next_number ip port h ≡ some n
    → next_number ip port (serve ds h).0 ≡ some (n + count_from ip port ds)
unfolding serve
serve_number [] ip port n h v stays known = known ∙ ap some (omega arith)
serve_number (d ∷ ds) ip port n h v stays known =
    let s = handle_lem d h v in
    serve_number ds ip port (n + (if same_address d.ip d.port ip port then 1 else 0)) (handle d h).0
      s.valid stays.1 (s.numbers ip port ∙ number_step d ip port n h stays.0 known)
    ∙ ap some (omega arith)
