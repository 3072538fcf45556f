-- ===== src/FileManager/Keys.antt =====
-- What is drawn, and runs of the keys.
use eltex_lessons.Base.{
  ℕ, zero, suc, ◌+◌, ◌-◌, ◌≤◌, ◌<◌, ◌≡◌, refl, ◌∙◌, ap, sym, Bool, true, false, Option, none, some,
  List, [], ◌∷◌, arith, ◌==◌, length, get_elem?, take, drop, if◌then◌else◌, Bool-cases, inl, inr,
}
use eltex_lessons.Base.Int.{ℤ, pos, negsuc, ◌+ℤ◌, ◌-ℤ◌, +ℤ_parts, -ℤ_parts, eq_of_parts, eq_ℤ}
use eltex_lessons.Text.{Bytes}
use eltex_lessons.FileManager.{
  FileEntry, Panel, World, selected_file, change_directory, scan_directory, Row, draw_rows, header,
  draw_panel, move_selection, new_path, Key, key_up, key_down, key_tab, key_enter, key_quit,
  other_key, Screen, change_active, press, first_screen, key_loop,
}
use eltex_lessons.FileManager.Panels.{
  IsPanel, scan_directory-IsPanel, move_selection-IsPanel, get_elem-lt,
}

abbrev pub highlighted_rows : List Row → List Row
highlighted_rows [] = []
highlighted_rows (r ∷ rs) = if r.highlighted then r ∷ highlighted_rows rs else highlighted_rows rs

abbrev pub marked_row : ℕ → FileEntry → Row
marked_row i f = record {
  line = i;
  marked = f.is_dir;
  highlighted = true;
  short_name = take 28 f.name;
}

module _ (p : Panel) (s t : ℕ) (es : p.selected ≡ pos s) (et : p.top ≡ pos t) where
  at_line : (i : ℕ) → eq_ℤ (pos i +ℤ p.top) p.selected ≡ (i + t == s)
  at_line i = rw (es, et) (ground (arith, +ℤ_parts (pos i) (pos t)))

  rows_below :
      (n i : ℕ) (fs : List FileEntry) → s < i + t → highlighted_rows (draw_rows n i true p fs) ≡ []
  unfolding draw_rows
  rows_below zero i fs h = refl
  rows_below (suc n) i [] h = refl
  rows_below (suc n) i (f ∷ fs) h = ground (arith, at_line i, rows_below n (i + 1) fs)

  rows_from :
      (n i k : ℕ) (fs : List FileEntry) (f : FileEntry)
      → i + t + k ≡ s
      → k < n
      → get_elem? fs k ≡ some f
      → highlighted_rows (draw_rows n i true p fs) ≡ marked_row (i + k + 1) f ∷ []
  unfolding draw_rows
  rows_from zero i k fs f e h got = absurd (omega arith)
  rows_from (suc n) i k [] f e h got = cc
  rows_from (suc n) i zero (g ∷ fs) f e h got =
      let here : (i + t == s) ≡ true = ground arith in
      let same : g ≡ f = cc in
      let line : i + 1 ≡ i + 0 + 1 = omega arith in
      rw (at_line i, here, rows_below n (i + 1) fs (omega arith), same)
        (ap (λ j. marked_row j f ∷ []) line)
  rows_from (suc n) i (suc k) (g ∷ fs) f e h got =
      let above : (i + t == s) ≡ false = ground arith in
      rw (at_line i, above)
        (rows_from n (i + 1) k fs f (omega arith) (omega arith) got
          ∙ ap (λ j. marked_row j f ∷ []) (omega arith))

get_elem-drop : (t k : ℕ) (fs : List FileEntry) → get_elem? (drop t fs) k ≡ get_elem? fs (t + k)
get_elem-drop zero k fs = ap (λ j. get_elem? fs j) (omega arith)
get_elem-drop (suc t) k [] = refl
get_elem-drop (suc t) k (f ∷ fs) =
    let step : suc t + k ≡ suc (t + k) = omega arith in rw step (get_elem-drop t k fs)

-- The parts of a panel whose window is in order.
abbrev Indices : Panel → Type 0
Indices p = (s : ℕ) × (t : ℕ) × (p.selected ≡ pos s) × (p.top ≡ pos t) × (t ≤ s) × (s < t + 18)

indices : (p : Panel) → IsPanel p → Indices p
indices p v = by_parts p.selected p.top refl refl
  where
    by_parts : (s t : ℤ) → p.selected ≡ s → p.top ≡ t → Indices p
    by_parts (pos s) (pos t) es et =
        let w = rw (es, et) at v.window in
        (s, t, es, et, omega (arith, w.1), omega (arith, w.2, +ℤ_parts (pos t) (pos 18)))
    by_parts (negsuc s) (pos t) es et =
        absurd (let w = rw (es, et) at v.window in omega (arith, w.1))
    by_parts s (negsuc t) es et = absurd (let w = rw et at v.window in omega (arith, w.0))

drawn_from : Bool → Panel → ℤ → Option (Bytes × List Row)
drawn_from active p (pos t) = some (header p.current_path, draw_rows 18 0 active p (drop t p.files))
drawn_from active p (negsuc t) = none

drawn_from-draw_panel :
    (active : Bool) (p : Panel) (o : ℤ) → p.top ≡ o → draw_panel active p ≡ drawn_from active p o
unfolding draw_panel drawn_from
drawn_from-draw_panel active p o e = by_top p.top o e
  where
    by_top :
        (a b : ℤ)
        → a ≡ b
        → elim a as (λ _. Option (Bytes × List Row)) [
          | pos t ↦ some (header p.current_path, draw_rows 18 0 active p (drop t p.files))
          | negsuc t ↦ none
        ]
          ≡ drawn_from active p b
    by_top (pos a) b e = rw (sym e) refl
    by_top (negsuc a) b e = rw (sym e) refl

line_number : (s t : ℕ) → t ≤ s → pos (0 + (s - t) + 1) ≡ pos s -ℤ pos t +ℤ pos 1
line_number s t h =
    eq_of_parts (pos (0 + (s - t) + 1)) (pos s -ℤ pos t +ℤ pos 1)
      (omega (arith, -ℤ_parts (pos s) (pos t), +ℤ_parts (pos s -ℤ pos t) (pos 1)))

-- Drawing the active panel of a well-formed panel with a file: it is defined, and exactly one line
-- is highlighted, the one of the selected file.
pub draw_panel_selected :
    (p : Panel) (f : FileEntry)
    → IsPanel p
    → selected_file p ≡ some f
    → (rows : List Row) × (n : ℕ) × (draw_panel true p ≡ some (header p.current_path, rows))
      × (highlighted_rows rows ≡ marked_row n f ∷ [])
      × (pos n ≡ p.selected -ℤ p.top +ℤ pos 1)
unfolding selected_file
draw_panel_selected p f v got =
    let (s, t, es, et, low, high) = indices p v in
    let at : get_elem? p.files s ≡ some f = rw es at got in
    let k = s - t in
    let back : t + k ≡ s = omega arith in
    (
      draw_rows 18 0 true p (drop t p.files),
      0 + k + 1,
      drawn_from-draw_panel true p (pos t) et ∙ unfold drawn_from in refl,
      rows_from p s t es et 18 0 k (drop t p.files) f (omega arith) (omega arith)
          (get_elem-drop t k p.files ∙ rw back at),
      line_number s t low
          ∙ ap (λ a. a -ℤ pos t +ℤ pos 1) (sym es)
          ∙ ap (λ b. p.selected -ℤ b +ℤ pos 1) (sym et),
    )

selected_in_range :
    (p : Panel)
    → IsPanel p
    → (length p.files == 0) ≡ false
    → (f : FileEntry) × (selected_file p ≡ some f)
unfolding selected_file
selected_in_range p v some_files =
    let (s, t, es, et, low, high) = indices p v in
    let w = rw (es, et) at v.window in
    let size : s < length p.files = ground (arith, w.3) in
    let (f, at) = get_elem-lt p.files s size in (f, rw es at)

-- `change_directory` reads inside of the array, and leaves a well-formed panel.
change_directory-IsPanel :
    (w : World) (p : Panel) → IsPanel p → (q : Panel) × (change_directory w p ≡ some q) × IsPanel q
unfolding change_directory
change_directory-IsPanel w p v = elim (Bool-cases (length p.files == 0)) [
  | inl empty ↦ (p, rw empty, v)
  | inr some_files ↦
      let (f, e) = selected_in_range p v some_files in
      elim (Bool-cases f.is_dir) [
        | inl dir ↦ (
          scan_directory w (new_path p.current_path f.name),
          rw (some_files, change_directory) (rw e (rw dir)),
          scan_directory-IsPanel w (new_path p.current_path f.name),
        )
        | inr file ↦ (p, rw (some_files, change_directory) (rw e (rw file)), v)
      ]
]

pub record IsScreen (s : Screen) : Type 0 where
  pub left : IsPanel s.left_panel
  pub right : IsPanel s.right_panel

change_active-IsScreen :
    (f : Panel → Option Panel) (s : Screen)
    → IsScreen s
    → ((p : Panel) → IsPanel p → (q : Panel) × (f p ≡ some q) × IsPanel q)
    → (t : Screen) × (change_active f s ≡ some t) × IsScreen t
change_active-IsScreen f s v keep = elim (Bool-cases (s.active_panel == 0)) [
  | inl left ↦
      let (q, e, w) = keep s.left_panel v.left in
      (record s { left_panel = q }, rw (left, e), record { left = w; right = v.right })
  | inr right ↦
      let (q, e, w) = keep s.right_panel v.right in
      (record s { right_panel = q }, rw (right, e), record { left = v.left; right = w })
]

press-IsScreen :
    (w : World) (k : Key) (s : Screen)
    → IsScreen s
    → (t : Screen) × (more : Bool) × (press w k s ≡ some (t, more)) × IsScreen t
unfolding press
press-IsScreen w key_up s v =
    let (t, e, u) =
      change_active-IsScreen (λ p. some (move_selection (negsuc 0) p)) s v
        (λ p i. (move_selection (negsuc 0) p, refl, move_selection-IsPanel (negsuc 0) p i)) in
    (t, true, rw (e, press), u)
press-IsScreen w key_down s v =
    let (t, e, u) =
      change_active-IsScreen (λ p. some (move_selection (pos 1) p)) s v
        (λ p i. (move_selection (pos 1) p, refl, move_selection-IsPanel (pos 1) p i)) in
    (t, true, rw (e, press), u)
press-IsScreen w key_tab s v = (_, true, refl, record { left = v.left; right = v.right })
press-IsScreen w key_enter s v =
    let (t, e, u) = change_active-IsScreen (change_directory w) s v (change_directory-IsPanel w) in
    (t, true, rw (e, press), u)
press-IsScreen w key_quit s v = (s, false, refl, v)
press-IsScreen w other_key s v = (s, true, refl, v)

draw_panel_defined :
    (active : Bool) (p : Panel)
    → IsPanel p
    → (d : Bytes × List Row) × (draw_panel active p ≡ some d)
draw_panel_defined active p v =
    let (s, t, es, et, low, high) = indices p v in
    (
      (header p.current_path, draw_rows 18 0 active p (drop t p.files)),
      drawn_from-draw_panel active p (pos t) et ∙ unfold drawn_from in refl,
    )

loop-IsScreen :
    (w : World) (ks : List Key) (s : Screen)
    → IsScreen s
    → (t : Screen) × (key_loop w ks s ≡ some t) × IsScreen t
unfolding key_loop
loop-IsScreen w [] s v = (s, refl, v)
loop-IsScreen w (k ∷ ks) s v =
    let (l, el) = draw_panel_defined (s.active_panel == 0) s.left_panel v.left in
    let (r, er) = draw_panel_defined (s.active_panel == 1) s.right_panel v.right in
    let (t, more, e, u) = press-IsScreen w k s v in
    let (z, ez, uz) = loop-IsScreen w ks t u in
    elim (Bool-cases more) [
      | inl on ↦ (z, rw (el, key_loop) (rw er (rw e (rw on ez))), uz)
      | inr off ↦ (t, rw (el, key_loop) (rw er (rw e (rw off))), u)
    ]

-- The file manager, started in any directory and given any keys, whatever the system says of the
-- directories: no read is outside of the array of files, at most 100 of which are listed, and each
-- panel keeps its selected file in range and among the eighteen lines that are drawn.
pub key_loop_lem :
    (w : World) (cwd : Bytes) (ks : List Key)
    → (s : Screen) × (key_loop w ks (first_screen w cwd) ≡ some s) × IsScreen s
unfolding first_screen
key_loop_lem w cwd ks =
    loop-IsScreen w ks (first_screen w cwd)
      (record { left = scan_directory-IsPanel w cwd; right = scan_directory-IsPanel w cwd })
