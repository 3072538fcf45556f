-- ===== src/FileManager/Paths.antt =====
-- Entering a directory and going back up.
use eltex_lessons.Base.{
  take-append, take_all, ◌+◌, ◌-◌, ◌<◌, ◌≡◌, ◌≢◌, refl, ◌∙◌, ap, sym, true, false, none, some, List,
  [], ◌∷◌, ◌++◌, arith, ◌==◌, length, length-append,
}
use eltex_lessons.Base.Int.{ℤ, pos, negsuc}
use eltex_lessons.Text.{Bytes, codes, Without, same_text}
use eltex_lessons.FileManager.{
  max_path, FileEntry, Panel, World, join_path, scan_directory, last_slash, parent_path,
  selected_file, new_path, change_directory,
}

last_slash-none : (s : Bytes) → Without b'/' s → last_slash s ≡ none
unfolding last_slash
last_slash-none [] h = refl
last_slash-none (c ∷ s) h = rw (last_slash-none s h.1, h.0)

last_slash-join :
    (path name : Bytes) → Without b'/' name → last_slash (path ++ b'/' ∷ name) ≡ some (length path)
unfolding last_slash
last_slash-join [] name h = rw (last_slash-none name h)
last_slash-join (c ∷ path) name h = rw (last_slash-join path name h)

-- A path that fits is not cut.
join_path_whole :
    (path name : Bytes)
    → length path + length name < max_path - 1
    → join_path path name ≡ path ++ b'/' ∷ name
join_path_whole path name fits =
    take_all 1023 (path ++ b'/' ∷ name) (omega (arith, length-append path (b'/' ∷ name)))

-- The path above a directory that was entered, the root included, is the path it was entered from.
parent_path-join :
    (path name : Bytes)
    → path ≢ []
    → Without b'/' name
    → length path + length name < max_path - 1
    → parent_path (join_path path name) ≡ path
unfolding parent_path
parent_path-join [] name ne h fits = absurd (ne refl)
parent_path-join (c ∷ path) name ne h fits =
    let whole = join_path_whole (c ∷ path) name fits in
    let inner : (length (c ∷ path) == 0) ≡ false = ground arith in
    ap parent_path whole
    ∙ rw (last_slash-join (c ∷ path) name h, parent_path)
        (rw inner (take-append (c ∷ path) (b'/' ∷ name)))

new_path_below :
    (path name : Bytes)
    → same_text name (codes "..") ≡ false
    → new_path path name ≡ join_path path name
new_path_below path name e = rw e refl

some_eq {ℓ} : {A : Type ℓ} {x y : A} → some x ≡ some y → x ≡ y
some_eq e = cc

not_empty : (p : Panel) (f : FileEntry) → selected_file p ≡ some f → (length p.files == 0) ≡ false
unfolding selected_file
not_empty p f e = by_files p.files p.selected refl refl
  where
    by_files :
        (fs : List FileEntry) (s : ℤ)
        → p.files ≡ fs
        → p.selected ≡ s
        → (length p.files == 0) ≡ false
    by_files [] (pos n) ef es = let stuck = rw (es, ef) at e in cc
    by_files [] (negsuc n) ef es = let stuck = rw es at e in cc
    by_files (g ∷ fs) s ef es = rw ef (ground arith)

change_directory_dir :
    (w : World) (p : Panel) (f : FileEntry)
    → selected_file p ≡ some f
    → f.is_dir ≡ true
    → change_directory w p ≡ some (scan_directory w (new_path p.current_path f.name))
unfolding change_directory
change_directory_dir w p f e dir = rw (not_empty p f e, change_directory) (rw e (rw dir))

-- From a panel with a directory selected, whose name is not ".." and has no slash and whose path
-- fits, Enter leads to the panel that `scan_directory` makes of the path, a slash and that name,
-- which is its path. When the entry ".." of a panel `r` with that path is selected, Enter leads back
-- to a panel of the path of the first panel, the root included.
pub change_directory_back :
    (w : World) (p q r : Panel) (f up : FileEntry)
    → selected_file p ≡ some f
    → f.is_dir ≡ true
    → same_text f.name (codes "..") ≡ false
    → Without b'/' f.name
    → p.current_path ≢ []
    → length p.current_path + length f.name < max_path - 1
    → change_directory w p ≡ some q
    → r.current_path ≡ q.current_path
    → selected_file r ≡ some up
    → up.is_dir ≡ true
    → same_text up.name (codes "..") ≡ true
    → (q ≡ scan_directory w (p.current_path ++ b'/' ∷ f.name))
      × (q.current_path ≡ p.current_path ++ b'/' ∷ f.name)
      × (z : Panel) × (change_directory w r ≡ some z)
      × (z ≡ scan_directory w p.current_path)
      × (z.current_path ≡ p.current_path)
unfolding scan_directory
change_directory_back w p q r f up e dir name clean ne fits went same eu dir' name' =
    let entered : scan_directory w (new_path p.current_path f.name) ≡ q =
      some_eq (sym (change_directory_dir w p f e dir) ∙ went) in
    let here : r.current_path ≡ join_path p.current_path f.name =
      same ∙ ap (λ (x : Panel). x.current_path) (sym entered) ∙ rw name refl in
    let whole = join_path_whole p.current_path f.name fits in
    let below : q ≡ scan_directory w (p.current_path ++ b'/' ∷ f.name) =
      sym entered ∙ ap (scan_directory w) (new_path_below p.current_path f.name name ∙ whole) in
    let above : new_path r.current_path up.name ≡ p.current_path =
      rw (name', here) (parent_path-join p.current_path f.name ne clean fits) in
    (
      below,
      ap (λ (x : Panel). x.current_path) below,
      scan_directory w (new_path r.current_path up.name),
      change_directory_dir w r up eu dir',
      ap (scan_directory w) above,
      above,
    )
