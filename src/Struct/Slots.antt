-- ===== src/Struct/Slots.antt =====
-- The fields and slots of the array: each field keeps its ten bytes and a NUL in the last one.
use eltex_lessons.Base.{
  get_or-append, get_or-drop, length-drop, ℕ, zero, suc, ◌+◌, ◌-◌, ◌≤◌, ◌<◌, ◌≡◌, refl, ◌∙◌, ap,
  sym, true, some, [], ◌∷◌, ◌++◌, arith, ltb, All, length, length-append, get_or, drop, replicate,
}
use mathlib.Core.Path.{subst}
use eltex_lessons.AbonentList.Strings.{IsText}
use eltex_lessons.Text.{Bytes, before, Without}
use eltex_lessons.Text.Terminated.{before-append}
use eltex_lessons.Struct.{
  max_abonent, Entry, Table, wipe, clear_abonent, zero_entry, scan_text, copy_bytes, copy_entry,
}

-- A field of ten bytes, the last of which is NUL.
pub record IsField (s : Bytes) : Type 0 where
  pub size : length s ≡ 10
  pub closed : get_or s 9 1 ≡ 0

pub record IsEntry (e : Entry) : Type 0 where
  pub name : IsField e.name
  pub second_name : IsField e.second_name
  pub tel : IsField e.tel

pub record IsTable (t : Table) : Type 0 where
  pub slots : length t.slots ≡ max_abonent
  pub count : t.count ≤ max_abonent
  pub entries : All IsEntry t.slots

-- A typed text: nine bytes at most, without a NUL.
abbrev pub IsTyped : Bytes → Type 0
IsTyped s = (length s < 10) × Without 0 s

abbrev pub AreTyped : Entry → Type 0
AreTyped e = IsTyped e.name × IsTyped e.second_name × IsTyped e.tel

length-wipe : (n : ℕ) (s : Bytes) → length (wipe n s) ≡ length s
unfolding wipe
length-wipe zero s = refl
length-wipe (suc n) [] = refl
length-wipe (suc n) (c ∷ s) = ap suc (length-wipe n s)

wipe_at : (n i : ℕ) (s : Bytes) → i < n → i < length s → get_or (wipe n s) i 1 ≡ 0
unfolding wipe
wipe_at zero i s lt h = absurd (omega arith)
wipe_at (suc n) i [] lt h = absurd (omega arith)
wipe_at (suc n) zero (c ∷ s) lt h = refl
wipe_at (suc n) (suc i) (c ∷ s) lt h = wipe_at n i s (omega arith) (omega arith)

wipe-IsField : (s : Bytes) → length s ≡ 10 → IsField (wipe 10 s)
wipe-IsField s e = record {
  size = length-wipe 10 s ∙ e;
  closed = wipe_at 10 9 s (omega arith) (omega arith);
}

pub clear_abonent-IsEntry : (e : Entry) → IsEntry e → IsEntry (clear_abonent e)
unfolding clear_abonent
clear_abonent-IsEntry e v = record {
  name = wipe-IsField e.name v.name.size;
  second_name = wipe-IsField e.second_name v.second_name.size;
  tel = wipe-IsField e.tel v.tel.size;
}

pub zero_entry-IsEntry : IsEntry zero_entry
zero_entry-IsEntry =
    let field : IsField (replicate 10 0) = record { size = refl; closed = refl } in
    record { name = field; second_name = field; tel = field }

-- Nine bytes are copied, and the tenth is the same in both.
copy_bytes_all :
    (n : ℕ) (s t : Bytes)
    → length s ≡ suc n
    → length t ≡ suc n
    → get_or s n 1 ≡ 0
    → get_or t n 1 ≡ 0
    → copy_bytes n s t ≡ t
unfolding copy_bytes
copy_bytes_all zero (c ∷ []) (d ∷ []) hs ht cs ct = ground arith
copy_bytes_all (suc n) (c ∷ s) (d ∷ t) hs ht cs ct =
    ap (λ k. d ∷ k) (copy_bytes_all n s t (omega arith) (omega arith) cs ct)
copy_bytes_all n [] t hs ht cs ct = absurd (omega arith)
copy_bytes_all n s [] hs ht cs ct = absurd (omega arith)
copy_bytes_all zero (c ∷ d ∷ s) t hs ht cs ct = absurd (omega arith)
copy_bytes_all zero s (c ∷ d ∷ t) hs ht cs ct = absurd (omega arith)

pub copy_entry_lem : (e f : Entry) → IsEntry e → IsEntry f → copy_entry e f ≡ f
unfolding copy_entry
copy_entry_lem e f v w = rw (
  copy_bytes_all 9 e.name f.name v.name.size w.name.size v.name.closed w.name.closed,
  copy_bytes_all 9 e.second_name f.second_name v.second_name.size w.second_name.size
      v.second_name.closed w.second_name.closed,
  copy_bytes_all 9 e.tel f.tel v.tel.size w.tel.size v.tel.closed w.tel.closed,
)

scanned_at :
    (text s : Bytes) (k : ℕ)
    → length text + k ≡ 9
    → get_or s 9 1 ≡ 0
    → get_or (text ++ 0 ∷ drop (length text + 1) s) (length text + k) 1 ≡ 0
scanned_at text s zero at closed = get_or-append text (0 ∷ drop (length text + 1) s) 0 1
scanned_at text s (suc k) at closed =
    get_or-append text (0 ∷ drop (length text + 1) s) (suc k) 1
    ∙ get_or-drop (length text + 1) k s 1
    ∙ ap (λ i. get_or s i 1) (omega arith)
    ∙ closed

scanned-closed :
    (text s : Bytes)
    → length text < 10
    → IsField s
    → get_or (text ++ 0 ∷ drop (length text + 1) s) 9 1 ≡ 0
scanned-closed text s lt v =
    let at : length text + (9 - length text) ≡ 9 = omega arith in
    ap (λ i. get_or (text ++ 0 ∷ drop (length text + 1) s) i 1) (sym at)
    ∙ scanned_at text s (9 - length text) at v.closed

-- A buffer of ten bytes, whatever they are, that a typed text is scanned into holds that text.
pub scan_buffer_lem :
    (text s : Bytes)
    → IsTyped text
    → length s ≡ 10
    → (out : Bytes) × (scan_text text s ≡ some out) × IsText out × (before 0 out ≡ text)
unfolding scan_text
scan_buffer_lem text s h size =
    let out = text ++ 0 ∷ drop (length text + 1) s in
    let fits : ltb (length text) (length s) ≡ true = ground (arith, size, h.0) in
    let holds = before-append text (drop (length text + 1) s) h.1 in
    let long : length text < length out =
      omega (arith, length-append text (0 ∷ drop (length text + 1) s)) in
    (out, rw fits, subst (λ b. length b < length out) (sym holds) long, holds)

-- A field that a typed text is scanned into holds that text.
pub scan_text_lem :
    (text s : Bytes)
    → IsTyped text
    → IsField s
    → (out : Bytes) × (scan_text text s ≡ some out) × IsField out × (before 0 out ≡ text)
unfolding scan_text
scan_text_lem text s h v =
    let out = text ++ 0 ∷ drop (length text + 1) s in
    let fits : ltb (length text) (length s) ≡ true = ground (arith, v.size, h.0) in
    (
      out,
      rw fits,
      record {
        size = omega (
          arith,
          length-append text (0 ∷ drop (length text + 1) s),
          v.size,
          h.0,
          length-drop (length text + 1) s,
        );
        closed = scanned-closed text s h.0 v;
      },
      before-append text (drop (length text + 1) s) h.1,
    )
