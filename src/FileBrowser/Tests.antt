-- ===== src/FileBrowser/Tests.antt =====
-- Clicks in the file browser of src/apps/file_browser.c on the file system that fs_init leaves.
use hz_os.Base.{◌≡◌, some, arith, refl}
use hz_os.Base.Text.{codes}
use hz_os.Base.Int.{pos}
use hz_os.Fs.{
  fs_find, add_child, last_sibling, find_loop, find_in_dir, walk, same_name, create_node,
}
use hz_os.Fs.Session.{fs_init, install}
use hz_os.FileBrowser.{
  goes, notepad_create, child_row, joined, row_at, sibling, fb_on_click, click_in, act, is_png,
  parent_path, slash_at,
}
use hz_os.FileBrowser.Click.{at_root, click-back}

etc_row : row_at fs_init.nodes 0 2 ≡ some (child_row 3)
unfolding row_at sibling fs_init install create_node add_child last_sibling
etc_row = refl

click-back_example :
    (fb_on_click fs_init (codes "/") (pos 50) ≡ goes (codes "/etc"))
    × (fs_find fs_init (codes "/etc") ≡ some 3)
    × (fb_on_click fs_init (codes "/etc") (pos 30) ≡ goes (codes "/"))
unfolding joined fs_init install create_node find_in_dir walk same_name fs_find find_loop add_child
    last_sibling
click-back_example =
    click-back fs_init (codes "/") 50 30 0 3 3 0 at_root refl refl (omega arith) etc_row refl
      (record {
        whole = ground arith;
        some_char = omega arith;
        short = omega arith;
        not_dot = refl;
        not_dot_dot = refl;
      })
      (omega arith) refl refl refl (omega arith) (omega arith)

-- The file readme.txt opens the notepad.
readme_opened : fb_on_click fs_init (codes "/") (pos 24) ≡ notepad_create
unfolding fb_on_click click_in act row_at sibling is_png joined fs_init install create_node fs_find
    find_loop add_child last_sibling
readme_opened = refl

dots_from_deep : parent_path (codes "/usr/share") ≡ codes "/usr"
unfolding parent_path slash_at
dots_from_deep = refl
