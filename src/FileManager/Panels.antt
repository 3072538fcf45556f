-- ===== src/FileManager/Panels.antt =====
-- The indices of a panel: the selected file is one of the files, and one of those that are drawn.
use eltex_lessons.Base.{
  ℕ, zero, suc, ◌+◌, ◌≤◌, ◌<◌, ◌≡◌, refl, Option, none, some, List, [], ◌∷◌, arith, ◌==◌, length,
  get_elem?, Bool-cases, inl, inr, ◌⊎◌,
}
use eltex_lessons.Base.Int.{ℤ, pos, ◌+ℤ◌, ◌-ℤ◌, +ℤ_parts, -ℤ_parts, ◌≤ℤ◌, ◌<ℤ◌}
use eltex_lessons.Text.{Bytes}
use eltex_lessons.FileManager.{
  max_file, Panel, World, scan_loop, scan_directory, clamp_selected, scroll_to, move_selection,
}

-- The selected index is in range, and in the window of eighteen lines that starts at `top`. In an
-- empty panel both are 0.
abbrev pub IsWindow : ℕ → ℤ → ℤ → Type 0
IsWindow count selected top =
    (pos 0 ≤ℤ top)
    × (top ≤ℤ selected)
    × (selected <ℤ top +ℤ pos 18)
    × ((selected <ℤ pos count) ⊎ ((count ≡ 0) × (selected ≡ pos 0) × (top ≡ pos 0)))

pub record IsPanel (p : Panel) : Type 0 where
  pub fits : length p.files ≤ max_file
  pub window : IsWindow (length p.files) p.selected p.top

length-scan_loop :
    (w : World) (path : Bytes) (n : ℕ) (names : List Bytes)
    → n < max_file
    → n + length (scan_loop w path n names) ≤ max_file
unfolding scan_loop
length-scan_loop w path n [] h = omega arith
length-scan_loop w path n (name ∷ names) h =
    ground (arith, length-scan_loop w path n names, length-scan_loop w path (n + 1) names)

pub scan_directory-IsPanel : (w : World) (path : Bytes) → IsPanel (scan_directory w path)
unfolding scan_directory
scan_directory-IsPanel w path = record {
  fits = by_listing (w.readdir path) refl;
  window = ground (arith, +ℤ_parts (pos 0) (pos 18));
}
  where
    by_listing :
        (o : Option (List Bytes))
        → w.readdir path ≡ o
        → length (scan_directory w path).files ≤ max_file
    by_listing none e = rw e (omega arith)
    by_listing (some names) e = rw e (omega (arith, length-scan_loop w path 0 names (omega arith)))

clamp_selected_lem :
    (count : ℕ) (s : ℤ)
    → 0 < count
    → (pos 0 ≤ℤ clamp_selected count s) × (clamp_selected count s <ℤ pos count)
clamp_selected_lem count s h = ground (arith, -ℤ_parts (pos count) (pos 1))

scroll_to_lem :
    (s t : ℤ)
    → pos 0 ≤ℤ s
    → pos 0 ≤ℤ t
    → (pos 0 ≤ℤ scroll_to s t) × (scroll_to s t ≤ℤ s) × (s <ℤ scroll_to s t +ℤ pos 18)
scroll_to_lem s t hs ht = ground (
  arith,
  +ℤ_parts t (pos 18),
  +ℤ_parts s (pos 18),
  -ℤ_parts s (pos 17),
  +ℤ_parts (s -ℤ pos 17) (pos 18),
)

-- `move_selection`, by any number of lines, keeps the panel well formed.
pub move_selection-IsPanel : (delta : ℤ) (p : Panel) → IsPanel p → IsPanel (move_selection delta p)
unfolding move_selection
move_selection-IsPanel delta p v = elim (Bool-cases (length p.files == 0)) [
  | inl empty ↦ rw (empty, move_selection) v
  | inr some_files ↦
      let s = clamp_selected (length p.files) (p.selected +ℤ delta) in
      let inside = clamp_selected_lem (length p.files) (p.selected +ℤ delta) (ground arith) in
      let scrolled = scroll_to_lem s p.top inside.0 v.window.0 in
      rw (some_files, move_selection)
        (record { fits = v.fits; window = (scrolled.0, scrolled.1, scrolled.2, inl inside.1) })
]

pub get_elem-lt {ℓ} :
    {A : Type ℓ} (xs : List A) (n : ℕ) → n < length xs → (x : A) × (get_elem? xs n ≡ some x)
get_elem-lt [] n h = absurd (omega arith)
get_elem-lt (x ∷ xs) zero h = (x, refl)
get_elem-lt (x ∷ xs) (suc n) h = get_elem-lt xs n (omega arith)
