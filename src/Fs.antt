-- ===== src/Fs.antt =====
-- The file system in memory of src/fs/filesystem.c. A `fs_node_t*` is the number of the node in
-- the order of allocation; nodes are never freed. Buffers from kmalloc are values: Heap.Alloc shows
-- that no two of them share a byte.
pub mod Chain
pub mod Find
pub mod Lead
pub mod Store
pub mod Make
pub mod Frame
pub mod Tree
pub mod RoundTrip
pub mod Write
pub mod LongName
pub mod Session
pub mod Reach
pub mod ReadBack
mod Tests
use hz_os.Base.{
  ℕ, zero, suc, ◌+◌, ◌-◌, ◌≤◌, ◌<◌, Bool, true, false, ◌&&◌, Option, none, some, List, [], ◌∷◌,
  ◌++◌, if◌then◌else◌, ◌==◌, leb, length, get_or, modify, take, drop,
}

pub data NodeType : Type 0 where
  file dir : NodeType

-- `fs_node_t`. A name is the characters in front of the NUL; `content` is `none` for NULL.
pub record Node : Type 0 where
  pub name : List ℕ
  pub kind : NodeType
  pub first_child : Option ℕ
  pub next_sibling : Option ℕ
  pub parent : Option ℕ
  pub content : Option (List ℕ)
  pub content_len : ℕ

-- The statics of the file, once fs_init has run.
pub record Fs : Type 0 where
  pub nodes : List Node
  pub root : ℕ
  pub cwd : ℕ
  pub cwd_path : List ℕ

-- create_node: cleared memory, at most 31 characters of the name, type and parent.
unfoldable pub create_node : List ℕ → NodeType → Option ℕ → Node
create_node name kind parent = record {
  name = take 31 name;
  kind = kind;
  first_child = none;
  next_sibling = none;
  parent = parent;
  content = none;
  content_len = 0;
}

abbrev pub null_node : Node
null_node = record {
  name = [];
  kind = file;
  first_child = none;
  next_sibling = none;
  parent = none;
  content = none;
  content_len = 0;
}

abbrev pub node_at : List Node → ℕ → Node
node_at ns i = get_or ns i null_node

abbrev pub is_dir : NodeType → Bool
is_dir dir = true
is_dir file = false

-- The loop that compares a name of `len` characters with a node's name.
unfoldable pub same_name : List ℕ → List ℕ → Bool
same_name [] [] = true
same_name [] (b ∷ bs) = false
same_name (a ∷ as') [] = false
same_name (a ∷ as') (b ∷ bs) = a == b && same_name as' bs

-- The walk over the siblings from `child` on, with fuel for as many nodes as there are.
unfoldable pub walk : List Node → List ℕ → ℕ → Option ℕ → Option ℕ
walk ns name fuel none = none
walk ns name zero (some c) = none
walk ns name (suc fuel) (some c) = elim (same_name (node_at ns c).name name) [
  | true ↦ some c
  | false ↦ walk ns name fuel (node_at ns c).next_sibling
]

unfoldable pub find_in_dir : List Node → ℕ → List ℕ → Option ℕ
find_in_dir ns d name =
    if is_dir (node_at ns d).kind then walk ns name (length ns) (node_at ns d).first_child else none

-- The last sibling from `n` on.
unfoldable pub last_sibling : List Node → ℕ → ℕ → ℕ
last_sibling ns zero n = n
last_sibling ns (suc fuel) n = elim (node_at ns n).next_sibling [
  | none ↦ n
  | some s ↦ last_sibling ns fuel s
]

unfoldable pub add_child : List Node → ℕ → ℕ → List Node
add_child ns parent child = elim (node_at ns parent).first_child [
  | none ↦ modify ns parent (λ n. record n { first_child = some child })
  | some c ↦ modify ns (last_sibling ns (length ns) c) (λ n. record n { next_sibling = some child })
]

abbrev pub is_dot_dot : List ℕ → Bool
is_dot_dot (a ∷ b ∷ []) = a == b'.' && b == b'.'
is_dot_dot _ = false

abbrev pub is_dot : List ℕ → Bool
is_dot (a ∷ []) = a == b'.'
is_dot _ = false

-- One segment of a path from the node `cur`.
unfoldable pub step : List Node → ℕ → List ℕ → Option ℕ
step ns cur seg =
    if is_dot_dot seg
    then elim (node_at ns cur).parent [ some p ↦ some p | none ↦ some cur ]
    else if is_dot seg
    then some cur
    else find_in_dir ns cur seg

-- The loop of fs_find: `seg` are the characters from `seg_start` up to `p`, the last argument those
-- from `p` on.
unfoldable pub find_loop : List Node → ℕ → List ℕ → List ℕ → Option ℕ
find_loop ns cur [] [] = some cur
find_loop ns cur (s ∷ seg) [] = step ns cur (s ∷ seg)
find_loop ns cur [] (c ∷ cs) = elim (c == b'/') [
  | true ↦ find_loop ns cur [] cs
  | false ↦ find_loop ns cur (c ∷ []) cs
]
find_loop ns cur (s ∷ seg) (c ∷ cs) = elim (c == b'/') [
  | true ↦ elim (step ns cur (s ∷ seg)) [ none ↦ none | some n ↦ find_loop ns n [] cs ]
  | false ↦ find_loop ns cur ((s ∷ seg) ++ (c ∷ [])) cs
]

-- fs_find; a path never holds NUL.
unfoldable pub fs_find : Fs → List ℕ → Option ℕ
fs_find fs [] = some fs.cwd
fs_find fs (c ∷ cs) = elim (c == b'/') [
  | true ↦ find_loop fs.nodes fs.root [] cs
  | false ↦ find_loop fs.nodes fs.cwd [] (c ∷ cs)
]

-- The index of the last '/', counted from `i`; `last` is the one seen so far.
unfoldable pub last_slash : List ℕ → ℕ → Option ℕ → Option ℕ
last_slash [] i last = last
last_slash (c ∷ cs) i last = last_slash cs (i + 1) (if c == b'/' then some i else last)

-- The parent and the name, once the last slash is known.
unfoldable pub split_at : Fs → List ℕ → Option ℕ → Option ℕ × List ℕ
split_at fs path none = (some fs.cwd, take 31 path)
split_at fs path (some zero) = (some fs.root, take 31 (drop 1 path))
split_at fs path (some (suc i)) = (fs_find fs (take (suc i) path), take 31 (drop (suc i + 1) path))

unfoldable pub get_parent_and_name : Fs → List ℕ → Option ℕ × List ℕ
get_parent_and_name fs path = split_at fs path (last_slash path 0 none)

-- The last part of fs_mkdir and fs_mkfile.
unfoldable pub attach : Fs → ℕ → List ℕ → NodeType → Fs
attach fs parent name kind = record fs {
  nodes =
      add_child (fs.nodes ++ (create_node name kind (some parent) ∷ [])) parent (length fs.nodes);
}

-- fs_mkdir and fs_mkfile, which differ in the type of the node; `false` is -1.
unfoldable pub make_at : Fs → Option ℕ → List ℕ → NodeType → Bool × Fs
make_at fs none name kind = (false, fs)
make_at fs (some parent) name kind =
    if is_dir (node_at fs.nodes parent).kind
    then elim (find_in_dir fs.nodes parent name) [
      | some c ↦ (false, fs)
      | none ↦ (true, attach fs parent name kind)
    ]
    else (false, fs)

unfoldable pub make : Fs → List ℕ → NodeType → Bool × Fs
make fs path kind = let (parent, name) = get_parent_and_name fs path in make_at fs parent name kind

unfoldable pub fs_mkdir : Fs → List ℕ → Bool × Fs
fs_mkdir fs path = make fs path dir

unfoldable pub fs_mkfile : Fs → List ℕ → Bool × Fs
fs_mkfile fs path = make fs path file

-- The last part of fs_write_file, for the node `n`.
unfoldable pub write_node : Fs → ℕ → List ℕ → Bool × Fs
write_node fs n bytes = if is_dir (node_at fs.nodes n).kind then (false, fs) else (
  true,
  record fs {
    nodes = modify fs.nodes n (λ m. record m { content = some bytes; content_len = length bytes });
  },
)

-- The part of fs_write_file behind a call of fs_mkfile.
unfoldable pub write_created : Bool × Fs → List ℕ → List ℕ → Bool × Fs
write_created (false, fs) path bytes = (false, fs)
write_created (true, fs) path bytes = elim (fs_find fs path) [
  | none ↦ (false, fs)
  | some n ↦ write_node fs n bytes
]

-- `bytes` are the `len` bytes at `data`.
unfoldable pub fs_write_file : Fs → List ℕ → List ℕ → Bool × Fs
fs_write_file fs path bytes = elim (fs_find fs path) [
  | none ↦ write_created (fs_mkfile fs path) path bytes
  | some n ↦ write_node fs n bytes
]
