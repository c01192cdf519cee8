-- ===== src/FileBrowser/Shown.antt =====
-- What src/apps/file_browser.c draws and what a click on it hits.
use hz_os.Base.{ℕ, Option, none, some, List}
use hz_os.Fs.{Node, Fs, node_at}
use hz_os.FileBrowser.{Row, up_row}

abbrev y_of : Option (ℕ × Row) → ℕ
y_of none = 0
y_of (some (y, row)) = y

abbrev row_of : Option (ℕ × Row) → Row
row_of none = up_row
row_of (some (y, row)) = row

module _ (ns : List Node) (d height : ℕ) where
  abbrev first : Option ℕ
  first = (node_at ns d).first_child
