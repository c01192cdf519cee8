-- ===== src/Fs/Session.antt =====
-- The parts of src/fs/filesystem.c beside paths and nodes: fs_init, fs_list, fs_read and fs_chdir.
use hz_os.Base.{
  take, ℕ, zero, suc, ◌+◌, Bool, true, false, Option, none, some, List, [], ◌∷◌, ◌++◌, length, ltb,
  ◌==◌, if◌then◌else◌,
}
use hz_os.Base.Text.{codes}
use hz_os.Fs.{Node, file, dir, node_at, is_dir, create_node, add_child, Fs, fs_find}

-- A new node of fs_init, linked to its parent.
unfoldable pub install : List Node → Node → ℕ → List Node
install ns node parent = add_child (ns ++ (node ∷ [])) parent (length ns)

abbrev pub new_dir : List ℕ → ℕ → Node
new_dir name parent = create_node name dir (some parent)

abbrev pub new_file : List ℕ → ℕ → List ℕ → Node
new_file name parent text = record (create_node name file (some parent)) {
  content = some text;
  content_len = length text;
}

abbrev pub readme_text : List ℕ
readme_text = codes "Welcome to dynamic hzOS FS!\nTry mkdir, touch, write.\n"

abbrev pub motd_text : List ℕ
motd_text = codes "Have fun hacking!\n"

abbrev pub conf_content : List ℕ
conf_content =
    codes
      "# hzsh Configuration File\n# Shell Prompt\nprompt=> \n\n# Aliases\nalias ll=lf\nalias cls=clear\n"

-- The nodes in the order of their allocation: /, readme.txt, bin, etc, etc/motd, etc/hzsh.conf.
unfoldable pub fs_init : Fs
fs_init = record {
  nodes =
      install
        (install
          (install
            (install
              (install (create_node (codes "/") dir none ∷ [])
                (new_file (codes "readme.txt") 0 readme_text) 0)
              (new_dir (codes "bin") 0) 0)
            (new_dir (codes "etc") 0) 0)
          (new_file (codes "motd") 3 motd_text) 3)
        (new_file (codes "hzsh.conf") 3 conf_content) 3;
  root = 0;
  cwd = 0;
  cwd_path = codes "/";
}

abbrev pub fs_get_root : Fs → ℕ
fs_get_root fs = fs.root

abbrev pub fs_get_cwd : Fs → List ℕ
fs_get_cwd fs = fs.cwd_path

-- A line of fs_list: a directory, or a file with its size.
pub data Entry : Type 0 where
  directory : List ℕ → Entry
  sized_file : List ℕ → ℕ → Entry

-- What fs_list prints.
pub data Listing : Type 0 where
  not_found : List ℕ → Listing
  no_directory : List ℕ → Listing
  entries : List Entry → Listing

abbrev pub entry : Node → Entry
entry n = if is_dir n.kind then directory n.name else sized_file n.name n.content_len

-- The loop over the children, with fuel.
unfoldable pub list_from : List Node → ℕ → Option ℕ → List Entry
list_from ns fuel none = []
list_from ns zero (some c) = []
list_from ns (suc fuel) (some c) =
    entry (node_at ns c) ∷ list_from ns fuel (node_at ns c).next_sibling

unfoldable pub fs_list : Fs → List ℕ → Listing
fs_list fs path = elim (fs_find fs path) [
  | none ↦ not_found path
  | some n ↦
      if is_dir (node_at fs.nodes n).kind
      then entries (list_from fs.nodes (length fs.nodes) (node_at fs.nodes n).first_child)
      else no_directory (node_at fs.nodes n).name
]

-- The `content_len` bytes at `content`; a file without content has the length 0 and a null pointer.
-- No operation stores a length larger than the buffer, behind which nothing is read.
abbrev pub file_bytes : Node → Option (List ℕ)
file_bytes n = elim n.content [ none ↦ none | some bytes ↦ some (take n.content_len bytes) ]

-- fs_read of the nodes in memory, with the `*out_size` bytes from the pointer that it returns on.
unfoldable pub read_node : Fs → List ℕ → Option (List ℕ)
read_node fs path = elim (fs_find fs path) [
  | none ↦ none
  | some n ↦ if is_dir (node_at fs.nodes n).kind then none else file_bytes (node_at fs.nodes n)
]

-- fs_read: `on_ext2` are the bytes that ext2_find_inode and ext2_read_file give for the path, none
-- where they give no inode above 0 or no byte.
unfoldable pub fs_read : Fs → Option (List ℕ) → List ℕ → Option (List ℕ)
fs_read fs none path = read_node fs path
fs_read fs (some bytes) path = some bytes

-- The loop of fs_chdir up to the root: "/name" for each node, in front of what follows it.
unfoldable pub path_text : List Node → ℕ → ℕ → Option ℕ → List ℕ → List ℕ
path_text ns root zero curr rest = rest
path_text ns root (suc fuel) none rest = rest
path_text ns root (suc fuel) (some n) rest =
    let up = path_text ns root fuel (node_at ns n).parent (b'/' ∷ ((node_at ns n).name ++ rest)) in
    if n == root then rest else up

-- The path of a directory; `none` where it has more than 255 characters, for which the code writes
-- in front of its buffer.
unfoldable pub new_path : Fs → ℕ → Option (List ℕ)
new_path fs n =
    let text = path_text fs.nodes fs.root (length fs.nodes + 1) (some n) [] in
    if n == fs.root
    then some (codes "/")
    else if ltb 255 (length text)
    then none
    else some (if length text == 0 then codes "/" else text)

-- The change to a directory that was found.
unfoldable pub enter : Fs → ℕ → Option (Bool × Fs)
enter fs n = elim (new_path fs n) [
  | none ↦ none
  | some text ↦ some (true, record fs { cwd = n; cwd_path = text })
]

unfoldable pub fs_chdir : Fs → List ℕ → Option (Bool × Fs)
fs_chdir fs path = elim (fs_find fs path) [
  | none ↦ some (false, fs)
  | some n ↦ if is_dir (node_at fs.nodes n).kind then enter fs n else some (false, fs)
]
