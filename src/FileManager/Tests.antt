-- ===== src/FileManager/Tests.antt =====
-- The file manager in a small world: the root holds the directory "src", which holds ".." and a
-- file.
use eltex_lessons.Base.{
  ℕ, ◌+◌, ◌<◌, ◌≡◌, ◌≢◌, refl, true, false, Bool, Option, some, List, [], ◌∷◌, arith, length,
  if◌then◌else◌,
}
use eltex_lessons.Base.Int.{pos, ◌+ℤ◌, ◌-ℤ◌}
use eltex_lessons.Text.{Bytes, codes, same_text}
use eltex_lessons.FileManager.{
  FileEntry, Panel, World, scan_directory, scan_loop, selected_file, change_directory, Row, header,
  draw_panel, key_down, key_enter, Screen, first_screen, key_loop,
}
use eltex_lessons.FileManager.Panels.{scan_directory-IsPanel}
use eltex_lessons.FileManager.Paths.{change_directory_back}
use eltex_lessons.FileManager.Keys.{
  highlighted_rows, marked_row, draw_panel_selected, IsScreen, key_loop_lem,
}

abbrev source_dir : FileEntry
source_dir = record { name = codes "src"; is_dir = true }

abbrev up_dir : FileEntry
up_dir = record { name = codes ".."; is_dir = true }

abbrev names_in : Bytes → Option (List Bytes)
names_in path =
    if same_text path (codes "/")
    then some (codes "src" ∷ [])
    else some (codes "." ∷ codes ".." ∷ codes "main.c" ∷ [])

abbrev stat_of : Bytes → Option Bool
stat_of path = if same_text path (codes "//src/main.c") then some false else some true

abbrev world : World
world = record { readdir = names_in; stat = stat_of }

abbrev root_panel : Panel
root_panel = scan_directory world (codes "/")

abbrev source_panel : Panel
source_panel = scan_directory world (codes "//src")

root_selected : selected_file root_panel ≡ some source_dir
unfolding selected_file scan_directory scan_loop same_text
root_selected = refl

source_selected : selected_file source_panel ≡ some up_dir
unfolding selected_file scan_directory scan_loop same_text
source_selected = refl

enter_source : change_directory world root_panel ≡ some source_panel
unfolding change_directory selected_file scan_directory scan_loop same_text
enter_source = refl

not_up : same_text (codes "src") (codes "..") ≡ false
unfolding same_text
not_up = refl

is_up : same_text (codes "..") (codes "..") ≡ true
unfolding same_text
is_up = refl

root_path : root_panel.current_path ≢ []
unfolding scan_directory
root_path = λ e. cc

short_path : length root_panel.current_path + length (codes "src") < 1023
unfolding scan_directory
short_path = omega arith

change_directory_back_example :
    (source_panel ≡ scan_directory world (codes "//src"))
    × (source_panel.current_path ≡ codes "//src")
    × (z : Panel) × (change_directory world source_panel ≡ some z)
    × (z ≡ scan_directory world root_panel.current_path)
    × (z.current_path ≡ root_panel.current_path)
unfolding scan_directory
change_directory_back_example =
    change_directory_back world root_panel source_panel source_panel source_dir up_dir root_selected
      refl not_up (refl, (refl, (refl, tt))) root_path short_path enter_source refl source_selected
      refl is_up

draw_panel_selected_example :
    (rows : List Row) × (n : ℕ) × (draw_panel true root_panel
      ≡ some (header root_panel.current_path, rows))
    × (highlighted_rows rows ≡ marked_row n source_dir ∷ [])
    × (pos n ≡ root_panel.selected -ℤ root_panel.top +ℤ pos 1)
draw_panel_selected_example =
    draw_panel_selected root_panel source_dir (scan_directory-IsPanel world (codes "/"))
      root_selected

key_loop_lem_example :
    (s : Screen) × (key_loop world (key_enter ∷ key_down ∷ []) (first_screen world (codes "/"))
      ≡ some s)
    × IsScreen s
key_loop_lem_example = key_loop_lem world (codes "/") (key_enter ∷ key_down ∷ [])
