-- ===== src/FileBrowser.antt =====
-- The file browser of src/apps/file_browser.c: what a click does, over the file system of Fs.
pub mod Click
pub mod Shown
mod Tests
use hz_os.Base.{
  ℕ, zero, suc, ◌+◌, ◌-◌, ◌/◌, Bool, true, false, ◌&&◌, Option, none, some, List, [], ◌∷◌, ◌++◌,
  if◌then◌else◌, ltb, leb, ◌==◌, length, get_or, take,
}
use hz_os.Base.Int.{ℤ, pos, negsuc}
use hz_os.Fs.{Node, Fs, node_at, is_dir, fs_find}

-- What a click does: nothing, a new `current_path`, or a call that opens a window.
pub data Outcome : Type 0 where
  nothing : Outcome
  goes : List ℕ → Outcome
  image_viewer_create : List ℕ → Outcome
  notepad_create : Outcome

-- A row of the list: ".." or a node.
pub data Row : Type 0 where
  up_row : Row
  child_row : ℕ → Row

-- The index from `len` down that holds a slash, or 0.
unfoldable pub slash_at : List ℕ → ℕ → ℕ
slash_at path zero = 0
slash_at path (suc len) =
    let below = slash_at path len in if get_or path (suc len) 0 == b'/' then suc len else below

unfoldable pub parent_path : List ℕ → List ℕ
parent_path path =
    let len = slash_at path (length path) in if len == 0 then b'/' ∷ [] else take len path

unfoldable pub joined : List ℕ → List ℕ → List ℕ
joined path name = if ltb 1 (length path) then path ++ (b'/' ∷ name) else path ++ name

unfoldable pub into_dir : List ℕ → List ℕ → List ℕ
into_dir path name = if ltb (length path + 1 + length name) 255 then joined path name else path

unfoldable pub is_png : List ℕ → Bool
is_png path =
    let len = length path in
    ltb 4 len
    && (get_or path (len - 4) 0 == b'.')
    && (get_or path (len - 3) 0 == b'p')
    && (get_or path (len - 2) 0 == b'n')
    && (get_or path (len - 1) 0 == b'g')

-- The sibling that is `idx` places on, among as many as the first number says.
unfoldable pub sibling : List Node → ℕ → Option ℕ → ℕ → Option ℕ
sibling ns zero o idx = none
sibling ns (suc n) none idx = none
sibling ns (suc n) (some c) zero = some c
sibling ns (suc n) (some c) (suc idx) = sibling ns n (node_at ns c).next_sibling idx

abbrev pub child_row_at : List Node → ℕ → ℕ → Option Row
child_row_at ns d idx = elim (sibling ns (length ns) (node_at ns d).first_child idx) [
  | none ↦ none
  | some c ↦ some (child_row c)
]

-- The row with the index `idx` of the directory `d`, which has ".." in front if it has a parent.
unfoldable pub row_at : List Node → ℕ → ℕ → Option Row
row_at ns d idx = elim (node_at ns d).parent [
  | none ↦ child_row_at ns d idx
  | some p ↦ elim idx [ zero ↦ some up_row | suc k ↦ child_row_at ns d k ]
]

abbrev pub open_file : List ℕ → Outcome
open_file full_path = if is_png full_path then image_viewer_create full_path else notepad_create

unfoldable pub act : List Node → List ℕ → Option Row → Outcome
act ns path none = nothing
act ns path (some up_row) = goes (parent_path path)
act ns path (some (child_row c)) =
    let node = node_at ns c in
    if is_dir node.kind then goes (into_dir path node.name) else open_file (joined path node.name)

unfoldable pub click_in : Fs → List ℕ → ℕ → Option ℕ → Outcome
click_in fs path idx none = nothing
click_in fs path idx (some d) =
    if is_dir (node_at fs.nodes d).kind then act fs.nodes path (row_at fs.nodes d idx) else nothing

unfoldable pub fb_on_click : Fs → List ℕ → ℤ → Outcome
fb_on_click fs path (negsuc y) = nothing
fb_on_click fs path (pos y) =
    if ltb y 24 then nothing else click_in fs path ((y - 24) / 12) (fs_find fs path)

-- The rows of the siblings from `o` on, with the y at which each is drawn; the height of a window
-- is at least 12.
unfoldable pub paint_rows : List Node → ℕ → Option ℕ → ℕ → ℕ → List (ℕ × Row)
paint_rows ns zero o y height = []
paint_rows ns (suc n) none y height = []
paint_rows ns (suc n) (some c) y height =
    let rest = paint_rows ns n (node_at ns c).next_sibling (y + 12) height in
    if ltb (height - 12) y then [] else (y, child_row c) ∷ rest

-- The rows that are drawn for the directory `d`.
unfoldable pub fb_paint : List Node → ℕ → ℕ → List (ℕ × Row)
fb_paint ns d height = elim (node_at ns d).parent [
  | none ↦ paint_rows ns (length ns) (node_at ns d).first_child 24 height
  | some p ↦ (24, up_row) ∷ paint_rows ns (length ns) (node_at ns d).first_child 36 height
]

-- The `current_path` of a new window; `none` is NULL.
abbrev pub file_browser_create : Option (List ℕ) → List ℕ
file_browser_create none = b'/' ∷ []
file_browser_create (some start_path) = take 255 start_path
