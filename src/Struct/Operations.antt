-- ===== src/Struct/Operations.antt =====
-- What the operations of Struct/abonents.c make of the table.
use eltex_lessons.Base.{
  ℕ, zero, suc, ◌+◌, ◌-◌, ◌≤◌, ◌<◌, ◌≡◌, ◌≢◌, refl, ◌∙◌, true, false, ◌&&◌, ◌||◌, some, List, [],
  ◌∷◌, arith, ltb, leb, All, All-set, length, length-set, get_or, get_or-set_self, get_or-set_ne,
  set, get_elem?, if◌then◌else◌, Bool-cases, inl, inr,
}
use eltex_lessons.Base.Int.{ℤ, pos, negsuc, ltb_ℤ}
use eltex_lessons.Text.{before}
use eltex_lessons.Struct.{
  max_abonent, Entry, Table, clear_abonent, zero_entry, scan_entry, add_abonent, copy_entry,
  close_gap, clear_at, delete_at, delet_abonent,
}
use eltex_lessons.Struct.Slots.{
  IsEntry, IsTable, AreTyped, clear_abonent-IsEntry, zero_entry-IsEntry, copy_entry_lem,
  scan_text_lem,
}

All-get_or : (xs : List Entry) (i : ℕ) → All IsEntry xs → IsEntry (get_or xs i zero_entry)
All-get_or [] i h = zero_entry-IsEntry
All-get_or (x ∷ xs) zero h = h.0
All-get_or (x ∷ xs) (suc i) h = All-get_or xs i h.1

-- A slot inside of the array.
slot_some :
    (xs : List Entry) (i : ℕ) → i < length xs → get_elem? xs i ≡ some (get_or xs i zero_entry)
slot_some [] i h = absurd (omega arith)
slot_some (x ∷ xs) zero h = refl
slot_some (x ∷ xs) (suc i) h = slot_some xs i (omega arith)

-- An entry with the typed texts.
abbrev pub HoldsTexts : Entry → Entry → Type 0
HoldsTexts e typed =
    (before 0 e.name ≡ typed.name)
    × (before 0 e.second_name ≡ typed.second_name)
    × (before 0 e.tel ≡ typed.tel)

scan_entry_lem :
    (typed e : Entry)
    → AreTyped typed
    → IsEntry e
    → (out : Entry) × (scan_entry typed e ≡ some out) × IsEntry out × HoldsTexts out typed
unfolding scan_entry
scan_entry_lem typed e h v =
    let (a, ea, va, ta) = scan_text_lem typed.name e.name h.0 v.name in
    let (b, eb, vb, tb) = scan_text_lem typed.second_name e.second_name h.1 v.second_name in
    let (c, ec, vc, tc) = scan_text_lem typed.tel e.tel h.2 v.tel in
    (
      record { name = a; second_name = b; tel = c },
      rw (ea, scan_entry) (rw eb (rw ec)),
      record { name = va; second_name = vb; tel = vc },
      (ta, tb, tc),
    )

-- `Add_abonent` on a well-formed table for texts of at most nine bytes without a NUL: it is
-- defined and keeps the table well formed. With ten entries the count stays; otherwise the texts
-- stand in a new last entry. The entries that were there are as before.
pub add_abonent-HoldsTexts :
    (typed : Entry) (t : Table)
    → AreTyped typed
    → IsTable t
    → (t' : Table) × (add_abonent typed t ≡ some t')
      × IsTable t'
      × (t'.count ≡ (if leb max_abonent t.count then t.count else t.count + 1))
      × (leb max_abonent t.count ≡ false → HoldsTexts (get_or t'.slots t.count zero_entry) typed)
      × ((i : ℕ) → i < t.count → get_or t'.slots i zero_entry ≡ get_or t.slots i zero_entry)
unfolding add_abonent
add_abonent-HoldsTexts typed t h v = elim (Bool-cases (leb max_abonent t.count)) [
  | inl full ↦ (t, rw full, v, rw full, (λ room. cc), λ i lt. refl)
  | inr room ↦
      let old = get_or t.slots t.count zero_entry in
      let (e, scanned, ve, texts) =
        scan_entry_lem typed old h (All-get_or t.slots t.count v.entries) in
      let inside : t.count < length t.slots = ground (arith, v.slots) in
      (
        record { slots = set t.slots t.count e; count = t.count + 1 },
        rw (room, add_abonent) (rw (slot_some t.slots t.count inside) (rw scanned)),
        record {
          slots = length-set t.slots t.count e ∙ v.slots;
          count = ground arith;
          entries = All-set IsEntry t.slots t.count e v.entries ve;
        },
        rw room,
        (λ _. rw (get_or-set_self t.slots t.count e zero_entry inside) texts),
        λ i lt. get_or-set_ne t.slots t.count i e zero_entry (omega arith),
      )
]

close_gap_lem :
    (n i : ℕ) (xs : List Entry)
    → All IsEntry xs
    → i + n < length xs
    → (out : List Entry) × (close_gap n i xs ≡ some out)
      × All IsEntry out
      × (length out ≡ length xs)
      × ((j : ℕ)
          → get_or out j zero_entry ≡ (
              if leb i j && ltb j (i + n)
              then get_or xs (j + 1) zero_entry
              else get_or xs j zero_entry))
unfolding close_gap
close_gap_lem zero i xs v h = (xs, refl, v, refl, λ j. ground arith)
close_gap_lem (suc n) i xs v h =
    let moved = get_or xs (i + 1) zero_entry in
    let same : copy_entry (get_or xs i zero_entry) moved ≡ moved =
      copy_entry_lem (get_or xs i zero_entry) moved (All-get_or xs i v) (All-get_or xs (i + 1) v) in
    let ys = set xs i moved in
    let len = length-set xs i moved in
    let (out, run, w, l, at) =
      close_gap_lem n (i + 1) ys (All-set IsEntry xs i moved v (All-get_or xs (i + 1) v))
        (omega (arith, len)) in
    (
      out,
      rw (slot_some xs i (omega arith), close_gap)
          (rw (slot_some xs (i + 1) (omega arith)) (rw same run)),
      w,
      l ∙ len,
      λ j. at j ∙ moved_at n i j xs h,
    )
  where
    moved_at :
        (n i j : ℕ) (xs : List Entry)
        → i + suc n < length xs
        → (if leb (i + 1) j && ltb j (i + 1 + n)
            then get_or (set xs i (get_or xs (i + 1) zero_entry)) (j + 1) zero_entry
            else get_or (set xs i (get_or xs (i + 1) zero_entry)) j zero_entry)
          ≡ (if leb i j && ltb j (i + suc n)
              then get_or xs (j + 1) zero_entry
              else get_or xs j zero_entry)
    moved_at n i j xs h = ground (
      arith,
      get_or-set_self xs i (get_or xs (i + 1) zero_entry) zero_entry,
      get_or-set_ne xs i j (get_or xs (i + 1) zero_entry) zero_entry,
      get_or-set_ne xs i (j + 1) (get_or xs (i + 1) zero_entry) zero_entry,
    )

-- The entries in front of the deleted one stay, and those behind move up by one.
abbrev pub Deleted : ℕ → Table → Table → Type 0
Deleted i t t' =
    IsTable t'
    × (t'.count ≡ t.count - 1)
    × ((j : ℕ)
        → j < t'.count
        → get_or t'.slots j zero_entry
          ≡ (if ltb j i then get_or t.slots j zero_entry else get_or t.slots (j + 1) zero_entry))

-- The array with a slot cleared.
abbrev cleared : ℕ → List Entry → List Entry
cleared i xs = set xs i (clear_abonent (get_or xs i zero_entry))

clear_at-some : (i : ℕ) (xs : List Entry) → i < length xs → clear_at i xs ≡ some (cleared i xs)
unfolding clear_at
clear_at-some i xs h = rw (slot_some xs i h) refl

cleared-All : (i : ℕ) (xs : List Entry) → All IsEntry xs → All IsEntry (cleared i xs)
cleared-All i xs v =
    All-set IsEntry xs i (clear_abonent (get_or xs i zero_entry)) v
      (clear_abonent-IsEntry (get_or xs i zero_entry) (All-get_or xs i v))

cleared_ne :
    (i j : ℕ) (xs : List Entry)
    → i ≢ j
    → get_or (cleared i xs) j zero_entry ≡ get_or xs j zero_entry
cleared_ne i j xs ne = get_or-set_ne xs i j (clear_abonent (get_or xs i zero_entry)) zero_entry ne

delete_at_lem :
    (i : ℕ) (t : Table)
    → IsTable t
    → i < t.count
    → (t' : Table) × (delete_at i t ≡ some t') × Deleted i t t'
unfolding delete_at
delete_at_lem i t v h =
    let xs = cleared i t.slots in
    let len = length-set t.slots i (clear_abonent (get_or t.slots i zero_entry)) in
    let n = t.count - 1 - i in
    let (ys, run, w, l, at) =
      close_gap_lem n i xs (cleared-All i t.slots v.entries)
        (omega (arith, v.slots, v.count, len)) in
    let last = t.count - 1 in
    (
      record { slots = cleared last ys; count = last },
      rw (clear_at-some i t.slots (omega (arith, v.slots, v.count)), delete_at)
          (rw run (rw (clear_at-some last ys (omega (arith, v.slots, v.count, len, l))) refl)),
      (
        record {
          slots =
              length-set ys last (clear_abonent (get_or ys last zero_entry)) ∙ l ∙ len ∙ v.slots;
          count = omega (arith, v.count);
          entries = cleared-All last ys w;
        },
        refl,
        λ j lt.
            cleared_ne last j ys (omega arith)
            ∙ at j
            ∙ ground (arith, cleared_ne i j t.slots, cleared_ne i (j + 1) t.slots),
      ),
    )

-- `Delet_abonent` for a number n from 1 to the count: no slot outside of the array is read or
-- written, the table stays well formed, the count goes down by one, the entries before the n-th
-- stay, and those behind it move up by one. (Nine bytes of each field are copied; the tenth is NUL
-- in every field.)
pub delet_abonent_lem :
    (n : ℕ) (t : Table)
    → IsTable t
    → 0 < n
    → n ≤ t.count
    → (t' : Table) × (delet_abonent (pos n) t ≡ some t') × Deleted (n - 1) t t'
unfolding delet_abonent
delet_abonent_lem n t v low high =
    let inside : (ltb_ℤ (pos n) (pos 1) || ltb_ℤ (pos t.count) (pos n)) ≡ false = ground arith in
    rw (inside, delet_abonent) (delete_at_lem (n - 1) t v (omega arith))

-- Any number keeps the table well formed.
pub delet_abonent-IsTable :
    (index : ℤ) (t : Table)
    → IsTable t
    → (t' : Table) × (delet_abonent index t ≡ some t') × IsTable t'
unfolding delet_abonent
delet_abonent-IsTable (negsuc n) t v =
    let outside : ltb_ℤ (negsuc n) (pos 1) ≡ true = ground arith in
    (t, rw (outside, delet_abonent) refl, v)
delet_abonent-IsTable (pos n) t v =
    elim (Bool-cases (ltb_ℤ (pos n) (pos 1) || ltb_ℤ (pos t.count) (pos n))) [
      | inl outside ↦ (t, rw (outside, delet_abonent) refl, v)
      | inr inside ↦
          let (t', run, done) = delet_abonent_lem n t v (ground arith) (ground arith) in
          (t', run, done.0)
    ]
