-- ===== src/Ext2/Overrun.antt =====
-- The group descriptor of src/fs/ext2.c is read into a buffer that is too small for a block.
use hz_os.Base.{
  ℕ, ◌≤◌, ◌≡◌, true, false, ◌||◌, some, List, ◌∷◌, length, ltb, ◌==◌, inl, inr, arith, refl, sym,
  ap, ◌∙◌, if-false, Option-cases, Bool-cases,
}
use hz_os.Base.Words.{mul32, add32}
use hz_os.Ramdisk.{Ramdisk, ramdisk_read, copy}
use hz_os.Ramdisk.Range.{length-copy}
use hz_os.Ext2.{
  Ext2, overrun, failed, read_block, read_into, gd_block, group_desc_size, read_inode,
  ext2_read_file,
}
use hz_os.Ext2.Directory.{ext2_find_inode, find_from, lookup, component, ext2_list_root}

-- A successful read gives as many bytes as were asked for.
pub length-ramdisk_read :
    (rd : Ramdisk) (offset len : ℕ) {bytes : List ℕ}
    → ramdisk_read rd offset len ≡ some bytes
    → length bytes ≡ len
unfolding ramdisk_read
length-ramdisk_read rd offset len {bytes = bytes} e = elim (Option-cases rd.base) [
  | inl n ↦ absurd (ground (arith, rw (n, ramdisk_read) at e))
  | inr (mem, m) ↦ elim (Bool-cases (ltb rd.size (add32 offset len))) [
    | inl out ↦ absurd (ground (arith, rw (m, ramdisk_read, out) at e))
    | inr fits ↦
        let same : copy mem offset 0 len ≡ bytes =
          ground (arith, rw (m, ramdisk_read, fits) at e) in
        ap (λ b. length b) (sym same) ∙ length-copy mem offset 0 len
  ]
]

block_length :
    (fs : Ext2) (block : ℕ) {bytes : List ℕ}
    → 1024 ≤ fs.block_size
    → read_block fs block ≡ some bytes
    → length bytes ≡ fs.block_size
unfolding read_block
block_length fs block h e =
    let mounted : (fs.block_size == 0) ≡ false = ground (arith, h) in
    length-ramdisk_read fs.rd (mul32 block fs.block_size) fs.block_size
      (rw (mounted, read_block) at e)

gd_overruns :
    (fs : Ext2) {gd : List ℕ}
    → 1024 ≤ fs.block_size
    → read_block fs (gd_block fs) ≡ some gd
    → read_into group_desc_size fs (gd_block fs) ≡ overrun
unfolding read_into
gd_overruns fs {gd = gd} h e =
    let size : length gd ≡ fs.block_size = block_length fs (gd_block fs) h e in
    let large : ltb 32 (length gd) ≡ true = ground (arith, size, h) in rw (e, read_into, large) refl

read_inode-overruns :
    (fs : Ext2) (inode_num : ℕ) {gd : List ℕ}
    → 1024 ≤ fs.block_size
    → 1 ≤ inode_num
    → read_block fs (gd_block fs) ≡ some gd
    → read_inode group_desc_size fs inode_num ≡ overrun
unfolding read_inode
read_inode-overruns fs inode_num h n e =
    let valid : (fs.block_size == 0 || inode_num == 0) ≡ false = ground (arith, h, n) in
    rw (gd_overruns fs h e, read_inode, valid) refl

lookup-overruns :
    (fs : Ext2) (name : List ℕ) {gd : List ℕ}
    → 1024 ≤ fs.block_size
    → read_block fs (gd_block fs) ≡ some gd
    → lookup group_desc_size fs 2 name ≡ overrun
unfolding lookup
lookup-overruns fs name h e = rw (read_inode-overruns fs 2 h (omega arith) e, lookup) refl

-- On a volume with blocks of 1024 bytes or more whose block of group descriptors can be read,
-- every ext2_read_file of an inode other than 0, every ext2_find_inode of a path below "/" and
-- ext2_list_root write behind
-- the end of the 32 bytes of `gd`, into which they read the whole block.
pub ext2-overruns :
    (fs : Ext2) (inode_num size c : ℕ) (path gd : List ℕ)
    → 1024 ≤ fs.block_size
    → read_block fs (gd_block fs) ≡ some gd
    → 1 ≤ inode_num
    → (ext2_read_file group_desc_size fs inode_num size ≡ overrun)
      × (ext2_find_inode group_desc_size fs (b'/' ∷ c ∷ path) ≡ some overrun)
      × (ext2_list_root group_desc_size fs ≡ overrun)
unfolding ext2_read_file ext2_find_inode find_from ext2_list_root
ext2-overruns fs inode_num size c path gd h e n =
    let valid : (fs.block_size == 0) ≡ false = ground (arith, h) in
    (
      rw (read_inode-overruns fs inode_num h n e, ext2_read_file) refl,
      if-false (λ r. r ≡ some overrun) (some failed) valid
          (rw (lookup-overruns fs (component 255 (c ∷ path)).0 h e, find_from) refl),
      rw (gd_overruns fs h e, ext2_list_root, valid) refl,
    )
