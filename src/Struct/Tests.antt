-- ===== src/Struct/Tests.antt =====
-- The directory in an array at concrete inputs.
use eltex_lessons.Base.{ℕ, ◌<◌, ◌≡◌, refl, false, some, ◌∷◌, ◌++◌, arith, leb, get_or, replicate}
use eltex_lessons.Base.Int.{pos}
use eltex_lessons.Text.{Bytes, codes}
use eltex_lessons.Struct.{Entry, Table, max_abonent, zero_entry, add_abonent, delet_abonent, Typed}
use eltex_lessons.Struct.Slots.{IsEntry, IsTable, AreTyped}
use eltex_lessons.Struct.Operations.{HoldsTexts, add_abonent-HoldsTexts, Deleted, delet_abonent_lem}

-- A text of three letters in a field.
abbrev field : Bytes → Bytes
field s = s ++ replicate 7 0

abbrev ann : Entry
ann = record {
  name = field (codes "Ann");
  second_name = field (codes "Lee");
  tel = field (codes "123");
}

abbrev bob : Entry
bob = record {
  name = field (codes "Bob");
  second_name = field (codes "Ray");
  tel = field (codes "456");
}

abbrev typed_bob : Entry
typed_bob = record { name = codes "Bob"; second_name = codes "Ray"; tel = codes "456" }

typed_bob-AreTyped : AreTyped typed_bob
typed_bob-AreTyped = ground arith

ann-IsEntry : IsEntry ann
ann-IsEntry = record {
  name = record { size = refl; closed = refl };
  second_name = record { size = refl; closed = refl };
  tel = record { size = refl; closed = refl };
}

bob-IsEntry : IsEntry bob
bob-IsEntry = record {
  name = record { size = refl; closed = refl };
  second_name = record { size = refl; closed = refl };
  tel = record { size = refl; closed = refl };
}

zero-IsEntry : IsEntry zero_entry
zero-IsEntry = record {
  name = record { size = refl; closed = refl };
  second_name = record { size = refl; closed = refl };
  tel = record { size = refl; closed = refl };
}

abbrev two_entries : Table
two_entries = record { slots = ann ∷ bob ∷ replicate 8 zero_entry; count = 2 }

two_entries-IsTable : IsTable two_entries
two_entries-IsTable =
    let z = zero-IsEntry in
    record {
      slots = refl;
      count = omega arith;
      entries = (ann-IsEntry, (bob-IsEntry, (z, (z, (z, (z, (z, (z, (z, (z, tt))))))))));
    }

abbrev choice : Typed
choice = record { number = pos 1; entry = typed_bob; index = pos 1; search_name = codes "Bob" }

add_abonent-HoldsTexts_example :
    (t' : Table) × (add_abonent typed_bob two_entries ≡ some t')
    × IsTable t'
    × (t'.count ≡ 3)
    × (leb max_abonent 2 ≡ false → HoldsTexts (get_or t'.slots 2 zero_entry) typed_bob)
    × ((i : ℕ) → i < 2 → get_or t'.slots i zero_entry ≡ get_or two_entries.slots i zero_entry)
add_abonent-HoldsTexts_example =
    add_abonent-HoldsTexts typed_bob two_entries typed_bob-AreTyped two_entries-IsTable

delet_abonent_lem_example :
    (t' : Table) × (delet_abonent (pos 1) two_entries ≡ some t') × Deleted 0 two_entries t'
delet_abonent_lem_example =
    delet_abonent_lem 1 two_entries two_entries-IsTable (omega arith) (omega arith)
