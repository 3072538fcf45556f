-- ===== src/FileManager.antt =====
-- File_manager: two panels that list a directory each. What opendir, readdir, stat and getch
-- return comes in from outside. `none` is a read outside of the array of files. The frame and the
-- colours of draw_panel.c are left out.
pub mod Panels
pub mod Paths
pub mod Keys
mod Tests
use eltex_lessons.Base.{
  ℕ, zero, suc, ◌+◌, ◌-◌, Bool, true, false, not, ◌&&◌, Option, none, some, List, [], ◌∷◌, ◌++◌,
  ltb, leb, ◌==◌, length, get_elem?, take, drop, if◌then◌else◌,
}
use eltex_lessons.Base.Int.{ℤ, pos, negsuc, ◌+ℤ◌, ◌-ℤ◌, ltb_ℤ, leb_ℤ, eq_ℤ}
use eltex_lessons.Text.{Bytes, codes, same_text}

abbrev pub max_file : ℕ
max_file = 100

abbrev pub panel_width : ℕ
panel_width = 50

abbrev pub panel_height : ℕ
panel_height = 20

abbrev pub max_path : ℕ
max_path = 1024

-- `FileEntry`
pub record FileEntry : Type 0 where
  pub name : Bytes
  pub is_dir : Bool

-- `Panel`: the array `files` up to `file_count`.
pub record Panel : Type 0 where
  pub files : List FileEntry
  pub selected : ℤ
  pub top : ℤ
  pub current_path : Bytes

-- What the system says of paths: the entries of a directory, and whether a file is one.
pub record World : Type 0 where
  pub readdir : Bytes → Option (List Bytes)
  pub stat : Bytes → Option Bool

-- `snprintf(…, MAX_PATH, "%s/%s", path, name)`
abbrev pub join_path : Bytes → Bytes → Bytes
join_path path name = take (max_path - 1) (path ++ b'/' ∷ name)

-- The loop of `scan_directory` with `n` files found.
unfoldable pub scan_loop : World → Bytes → ℕ → List Bytes → List FileEntry
scan_loop w path n [] = []
scan_loop w path n (name ∷ names) =
    let found : List FileEntry = elim (w.stat (join_path path name)) [
      | none ↦ if leb max_file n then [] else scan_loop w path n names
      | some dir ↦
          record { name = name; is_dir = dir }
          ∷ (if leb max_file (n + 1) then [] else scan_loop w path (n + 1) names)
    ] in
    let rest = scan_loop w path n names in if same_text name (codes ".") then rest else found

unfoldable pub scan_directory : World → Bytes → Panel
scan_directory w path = record {
  files = elim (w.readdir path) [ none ↦ [] | some names ↦ scan_loop w path 0 names ];
  selected = pos 0;
  top = pos 0;
  current_path = path;
}

-- The tests of `move_selection` one after the other, on the two indices.
abbrev pub clamp_selected : ℕ → ℤ → ℤ
clamp_selected count s =
    let low = if ltb_ℤ s (pos 0) then pos 0 else s in
    if leb_ℤ (pos count) low then pos count -ℤ pos 1 else low

abbrev pub scroll_to : ℤ → ℤ → ℤ
scroll_to s t =
    let up = if ltb_ℤ s t then s else t in
    if leb_ℤ (up +ℤ pos (panel_height - 2)) s then s -ℤ pos (panel_height - 3) else up

unfoldable pub move_selection : ℤ → Panel → Panel
move_selection delta p =
    let s = clamp_selected (length p.files) (p.selected +ℤ delta) in
    if length p.files == 0 then p else record p { selected = s; top = scroll_to s p.top }

-- `strrchr(path, '/') - path`
unfoldable pub last_slash : Bytes → Option ℕ
last_slash [] = none
last_slash (c ∷ s) = elim (last_slash s) [
  | some i ↦ some (suc i)
  | none ↦ if c == b'/' then some 0 else none
]

-- The path above, as `change_directory` finds it.
unfoldable pub parent_path : Bytes → Bytes
parent_path path = elim (last_slash path) [
  | none ↦ codes ".."
  | some i ↦ if i == 0 then codes "/" else take i path
]

-- `files[selected]`
unfoldable pub selected_file : Panel → Option FileEntry
selected_file p = elim p.selected [ pos n ↦ get_elem? p.files n | negsuc n ↦ none ]

abbrev pub new_path : Bytes → Bytes → Bytes
new_path path name = if same_text name (codes "..") then parent_path path else join_path path name

unfoldable pub change_directory : World → Panel → Option Panel
change_directory w p = if length p.files == 0 then some p else elim (selected_file p) [
  | none ↦ none
  | some f ↦ some (if f.is_dir then scan_directory w (new_path p.current_path f.name) else p)
]

-- A drawn line of a panel: its number in the panel, the mark of a directory, the highlighting, and
-- the name cut to 28 bytes.
pub record Row : Type 0 where
  pub line : ℕ
  pub marked : Bool
  pub highlighted : Bool
  pub short_name : Bytes

-- The loop of `draw_panel` over the lines from `i` on, with the rounds that are left; `fs` are the
-- files from line `i` on.
unfoldable pub draw_rows : ℕ → ℕ → Bool → Panel → List FileEntry → List Row
draw_rows zero i active p fs = []
draw_rows (suc n) i active p [] = []
draw_rows (suc n) i active p (f ∷ fs) =
    record {
      line = i + 1;
      marked = f.is_dir;
      highlighted = eq_ℤ (pos i +ℤ p.top) p.selected && active;
      short_name = take 28 f.name;
    }
    ∷ draw_rows n (i + 1) active p fs

-- The header: the end of a long path, or the whole path.
abbrev pub header : Bytes → Bytes
header path =
    if ltb (panel_width - 4) (length path)
    then codes " ..." ++ drop (length path - (panel_width - 7)) path
    else codes " " ++ (path ++ codes " ")

-- The rows and the header of `draw_panel`; `none` where `top` is negative.
unfoldable pub draw_panel : Bool → Panel → Option (Bytes × List Row)
draw_panel active p = elim p.top [
  | pos t ↦ some (header p.current_path, draw_rows (panel_height - 2) 0 active p (drop t p.files))
  | negsuc t ↦ none
]

-- What getch returns, as far as `main` tells keys apart.
pub data Key : Type 0 where
  key_up : Key
  key_down : Key
  key_tab : Key
  key_enter : Key
  key_quit : Key
  other_key : Key

-- The panels and `active_panel`.
pub record Screen : Type 0 where
  pub left_panel : Panel
  pub right_panel : Panel
  pub active_panel : ℕ

abbrev pub change_active : (Panel → Option Panel) → Screen → Option Screen
change_active f s =
    if s.active_panel == 0
    then elim (f s.left_panel) [ none ↦ none | some p ↦ some (record s { left_panel = p }) ]
    else elim (f s.right_panel) [ none ↦ none | some p ↦ some (record s { right_panel = p }) ]

-- The switch of `main`: the screen, and whether the loop goes on.
unfoldable pub press : World → Key → Screen → Option (Screen × Bool)
press w key_up s = elim (change_active (λ p. some (move_selection (negsuc 0) p)) s) [
  | none ↦ none
  | some t ↦ some (t, true)
]
press w key_down s = elim (change_active (λ p. some (move_selection (pos 1) p)) s) [
  | none ↦ none
  | some t ↦ some (t, true)
]
press w key_tab s = some (record s { active_panel = if s.active_panel == 0 then 1 else 0 }, true)
press w key_enter s = elim (change_active (change_directory w) s) [
  | none ↦ none
  | some t ↦ some (t, true)
]
press w key_quit s = some (s, false)
press w other_key s = some (s, true)

-- The screen before the loop, for the path that getcwd returns.
unfoldable pub first_screen : World → Bytes → Screen
first_screen w cwd = record {
  left_panel = scan_directory w cwd;
  right_panel = scan_directory w cwd;
  active_panel = 0;
}

-- The loop of `main`: each round draws both panels and handles a key. The screen when it is left
-- or the keys end.
unfoldable pub key_loop : World → List Key → Screen → Option Screen
key_loop w [] s = some s
key_loop w (k ∷ ks) s = elim (draw_panel (s.active_panel == 0) s.left_panel) [
  | none ↦ none
  | some l ↦ elim (draw_panel (s.active_panel == 1) s.right_panel) [
    | none ↦ none
    | some r ↦ elim (press w k s) [
      | none ↦ none
      | some (t, more) ↦ let rest = key_loop w ks t in if more then rest else some t
    ]
  ]
]
