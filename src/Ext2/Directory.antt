-- ===== src/Ext2/Directory.antt =====
-- Paths and directories of src/fs/ext2.c: ext2_find_inode and ext2_list_root.
use hz_os.Base.{
  ℕ, zero, suc, ◌+◌, ◌%◌, Bool, true, ◌&&◌, ◌||◌, not, Option, none, some, List, [], ◌∷◌, length,
  get_or, if◌then◌else◌, ltb, leb, ◌==◌,
}
use hz_os.Ext2.{
  Ext2, Inode, Outcome, overrun, failed, ok, bind, byte, le16, le32, read_into, buf_size, gd_block,
  parse_inode, inode_place, read_inode, is_directory,
}

-- The characters up to a '/', at most `room` of them, and the rest.
unfoldable pub component : ℕ → List ℕ → List ℕ × List ℕ
component room [] = ([], [])
component zero (c ∷ cs) = ([], c ∷ cs)
component (suc room) (c ∷ cs) =
    let (name, rest) = component room cs in if c == b'/' then ([], c ∷ cs) else (c ∷ name, rest)

abbrev pub skip_slash : List ℕ → List ℕ
skip_slash [] = []
skip_slash (c ∷ cs) = if c == b'/' then cs else c ∷ cs

-- The loop that compares a name, which stands at an offset.
unfoldable pub matches : Ext2 → List ℕ → ℕ → List ℕ → Bool
matches fs buf at [] = true
matches fs buf at (c ∷ cs) = byte fs buf at == c && matches fs buf (suc at) cs

-- What the search of a directory gives; `unfinished` is for too little fuel.
pub data Search : Type 0 where
  unfinished : Search
  absent : Search
  found : ℕ → Search

-- An entry without inode or length ends the directory.
abbrev pub is_last : Ext2 → List ℕ → ℕ → Bool
is_last fs buf offset = le32 fs buf offset == 0 || le16 fs buf (offset + 4) == 0

unfoldable pub search : Ext2 → List ℕ → List ℕ → ℕ → ℕ → Search
search fs buf name zero offset = if leb fs.block_size offset then absent else unfinished
search fs buf name (suc fuel) offset =
    let next = search fs buf name fuel (offset + le16 fs buf (offset + 4)) in
    if leb fs.block_size offset || is_last fs buf offset
    then absent
    else if byte fs buf (offset + 6) == length name && matches fs buf (offset + 8) name
    then found (le32 fs buf offset)
    else next

-- The search of a block that was read; every entry has a length, and so the size of the block is
-- fuel enough.
abbrev pub search_block : Ext2 → List ℕ → List ℕ → Outcome ℕ
search_block fs buf name = elim (search fs buf name fs.block_size 0) [
  | unfinished ↦ failed
  | absent ↦ failed
  | found inode ↦ ok inode
]

-- One component of a path in the directory of an inode.
unfoldable pub lookup : ℕ → Ext2 → ℕ → List ℕ → Outcome ℕ
lookup gd_room fs current_inode name = bind (read_inode gd_room fs current_inode) λ dir_inode.
    let dir_block = get_or dir_inode.block 0 0 in
    if not (is_directory dir_inode)
    then failed
    else if dir_block == 0
    then failed
    else bind (read_into buf_size fs dir_block) λ buf. search_block fs buf name

-- The loop over the components, none for too little fuel.
unfoldable pub find_from : ℕ → ℕ → Ext2 → List ℕ → ℕ → Option (Outcome ℕ)
find_from fuel gd_room fs [] current_inode = some (ok current_inode)
find_from zero gd_room fs (c ∷ cs) current_inode = none
find_from (suc fuel) gd_room fs (c ∷ cs) current_inode =
    let (name, rest) = component 255 (c ∷ cs) in
    elim (lookup gd_room fs current_inode name) [
      | overrun ↦ some overrun
      | failed ↦ some failed
      | ok inode ↦ find_from fuel gd_room fs (skip_slash rest) inode
    ]

unfoldable pub ext2_find_inode : ℕ → Ext2 → List ℕ → Option (Outcome ℕ)
ext2_find_inode gd_room fs [] = some failed
ext2_find_inode gd_room fs (c ∷ path) =
    let outcome = find_from (length path) gd_room fs path 2 in
    if not (c == b'/') then some failed else if fs.block_size == 0 then some failed else outcome

-- What ext2_list_root prints.
pub data RootList : Type 0 where
  not_mounted : RootList
  no_group_desc : RootList
  block_too_large : RootList
  no_inode_table : RootList
  not_directory : RootList
  no_data_block : RootList
  no_root_block : RootList
  root_entries : List (ℕ × List ℕ) → RootList

-- n bytes of a buffer from an offset on.
unfoldable pub name_bytes : Ext2 → List ℕ → ℕ → ℕ → List ℕ
name_bytes fs buf at zero = []
name_bytes fs buf at (suc n) = byte fs buf at ∷ name_bytes fs buf (suc at) n

-- The inode and the name of each entry, with fuel.
unfoldable pub entries_from : Ext2 → List ℕ → ℕ → ℕ → List (ℕ × List ℕ)
entries_from fs buf zero offset = []
entries_from fs buf (suc fuel) offset =
    let rest = entries_from fs buf fuel (offset + le16 fs buf (offset + 4)) in
    if leb fs.block_size offset || is_last fs buf offset
    then []
    else (le32 fs buf offset, name_bytes fs buf (offset + 8) (byte fs buf (offset + 6) % 256))
      ∷ rest

-- read_block, with the message of its failure.
abbrev pub or_message :
    {A : Type 0} → RootList → Outcome A → (A → Outcome RootList) → Outcome RootList
or_message m overrun f = overrun
or_message m failed f = ok m
or_message m (ok a) f = f a

abbrev pub list_directory : Ext2 → Inode → Outcome RootList
list_directory fs root_inode =
    let dir_block = get_or root_inode.block 0 0 in
    if not (is_directory root_inode)
    then ok not_directory
    else if dir_block == 0
    then ok no_data_block
    else or_message no_root_block (read_into buf_size fs dir_block)
        λ buf. ok (root_entries (entries_from fs buf fs.block_size 0))

unfoldable pub ext2_list_root : ℕ → Ext2 → Outcome RootList
ext2_list_root gd_room fs =
    if fs.block_size == 0
    then ok not_mounted
    else or_message no_group_desc (read_into gd_room fs (gd_block fs)) λ gd.
      let (inode_block, inode_block_offset) = inode_place fs gd 2 in
      if ltb buf_size fs.block_size
      then ok block_too_large
      else or_message no_inode_table (read_into buf_size fs inode_block)
          λ buf. list_directory fs (parse_inode fs buf inode_block_offset)
