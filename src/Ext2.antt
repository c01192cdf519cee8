-- ===== src/Ext2.antt =====
-- The reader of ext2 volumes on the RAM disk, src/fs/ext2.c.
mod Tests
pub mod Directory
pub mod Scan
pub mod Overrun
pub mod Content
use hz_os.Base.{
  ℕ, zero, suc, ◌+◌, ◌-◌, ◌*◌, ◌/◌, ◌%◌, ◌^◌, Bool, true, false, ◌&&◌, ◌||◌, not, Option, none,
  some, List, [], ◌∷◌, ◌++◌, length, take, min, get_elem?, if◌then◌else◌, ltb, leb, ◌==◌,
}
use hz_os.Base.Words.{add32, mul32, sub32}
use hz_os.Ramdisk.{Ramdisk, ramdisk_read}

-- The fields of ext2_super_block_t that are used.
pub record Super : Type 0 where
  pub inodes_count : ℕ
  pub blocks_count : ℕ
  pub free_blocks_count : ℕ
  pub free_inodes_count : ℕ
  pub log_block_size : ℕ
  pub magic : ℕ
  pub inode_size : ℕ

-- The static variables; `stack` is what stands in a buffer's memory behind the bytes read into it.
pub record Ext2 : Type 0 where
  pub rd : Ramdisk
  pub super : Super
  pub block_size : ℕ
  pub stack : ℕ → ℕ

pub record Inode : Type 0 where
  pub mode : ℕ
  pub size : ℕ
  pub block : List ℕ

-- The outcome of a function: bytes written behind the end of a buffer, -1, or a value.
pub data Outcome (A : Type 0) : Type 0 where
  overrun : Outcome A
  failed : Outcome A
  ok : A → Outcome A

abbrev pub bind : {A B : Type 0} → Outcome A → (A → Outcome B) → Outcome B
bind overrun f = overrun
bind failed f = failed
bind (ok a) f = f a

-- The byte of a buffer at an offset.
unfoldable pub byte : Ext2 → List ℕ → ℕ → ℕ
byte fs buf i = elim (get_elem? buf i) [ none ↦ fs.stack i | some b ↦ b ]

abbrev pub le16 : Ext2 → List ℕ → ℕ → ℕ
le16 fs buf i = byte fs buf i + byte fs buf (i + 1) * 256

abbrev pub le32 : Ext2 → List ℕ → ℕ → ℕ
le32 fs buf i = le16 fs buf i + le16 fs buf (i + 2) * 2 ^ 16

unfoldable pub read_block : Ext2 → ℕ → Option (List ℕ)
read_block fs block =
    if fs.block_size == 0
    then none
    else ramdisk_read fs.rd (mul32 block fs.block_size) fs.block_size

-- read_block into a buffer of `room` bytes.
unfoldable pub read_into : ℕ → Ext2 → ℕ → Outcome (List ℕ)
read_into room fs block = elim (read_block fs block) [
  | none ↦ failed
  | some bytes ↦ if ltb room (length bytes) then overrun else ok bytes
]

abbrev pub buf_size : ℕ
buf_size = 4096

-- sizeof(ext2_group_desc_t)
abbrev pub group_desc_size : ℕ
group_desc_size = 32

-- The struct at the beginning of the 90 bytes read.
unfoldable pub parse_super : Ext2 → List ℕ → Super
parse_super fs buf = record {
  inodes_count = le32 fs buf 0;
  blocks_count = le32 fs buf 4;
  free_blocks_count = le32 fs buf 12;
  free_inodes_count = le32 fs buf 16;
  log_block_size = le32 fs buf 24;
  magic = le16 fs buf 56;
  inode_size = le16 fs buf 88;
}

-- The end of a mount, with the super block read. The shift is the processor's, modulo 32.
unfoldable pub set_up : Ext2 → Super → Ext2
set_up fs s = record fs {
  super = record s { inode_size = if s.inode_size == 0 then 128 else s.inode_size };
  block_size = 1024 * 2 ^ (s.log_block_size % 32) % 2 ^ 32;
}

-- A super block with a wrong magic stays in `super`.
unfoldable pub ext2_mount_from_ramdisk : Ext2 → Bool × Ext2
ext2_mount_from_ramdisk fs =
    if fs.rd.size == 0 then (false, fs) else elim (ramdisk_read fs.rd 1024 90) [
      | none ↦ (false, fs)
      | some buf ↦
          if (parse_super fs buf).magic == 0xEF53
          then (true, set_up fs (parse_super fs buf))
          else (false, record fs { super = parse_super fs buf })
    ]

abbrev pub gd_block : Ext2 → ℕ
gd_block fs = if fs.block_size == 1024 then 2 else 1

-- ext2_inode_t at an offset.
unfoldable pub parse_inode : Ext2 → List ℕ → ℕ → Inode
parse_inode fs buf at = record {
  mode = le16 fs buf at;
  size = le32 fs buf (at + 4);
  block =
      le32 fs buf (at + 40)
      ∷ le32 fs buf (at + 44)
      ∷ le32 fs buf (at + 48)
      ∷ le32 fs buf (at + 52)
      ∷ le32 fs buf (at + 56)
      ∷ le32 fs buf (at + 60)
      ∷ le32 fs buf (at + 64)
      ∷ le32 fs buf (at + 68)
      ∷ le32 fs buf (at + 72)
      ∷ le32 fs buf (at + 76)
      ∷ le32 fs buf (at + 80)
      ∷ le32 fs buf (at + 84)
      ∷ le32 fs buf (at + 88)
      ∷ le32 fs buf (at + 92)
      ∷ le32 fs buf (at + 96)
      ∷ [];
}

-- Where the inode stands in its table: the block and the offset.
abbrev pub inode_place : Ext2 → List ℕ → ℕ → ℕ × ℕ
inode_place fs gd inode_num =
    let inode_offset = mul32 (inode_num - 1) fs.super.inode_size in
    (add32 (le32 fs gd 8) (inode_offset / fs.block_size), inode_offset % fs.block_size)

-- `gd_room` is the size of the buffer `gd`, group_desc_size in the code.
unfoldable pub read_inode : ℕ → Ext2 → ℕ → Outcome Inode
read_inode gd_room fs inode_num =
    if fs.block_size == 0 || inode_num == 0
    then failed
    else bind (read_into gd_room fs (gd_block fs)) λ gd.
      let (inode_block, inode_block_offset) = inode_place fs gd inode_num in
      bind (read_into buf_size fs inode_block) λ buf. ok (parse_inode fs buf inode_block_offset)

abbrev pub is_directory : Inode → Bool
is_directory inode = inode.mode / 0x4000 % 2 == 1

-- The loop over the blocks from number i on; `out` are the bytes read so far.
unfoldable pub read_blocks : Ext2 → ℕ → ℕ → List ℕ → List ℕ → Outcome (List ℕ)
read_blocks fs size i [] out = ok out
read_blocks fs size i (block_num ∷ rest) out =
    if leb size (length out) || block_num == 0 then ok out else elim (ltb i 12) [
      | false ↦ read_blocks fs size (suc i) rest out
      | true ↦ bind (read_into buf_size fs block_num) λ block_data.
          read_blocks fs size (suc i) rest
            (out ++ take (min (size - length out) fs.block_size) block_data)
    ]

-- The bytes that are written to the buffer; their number is the result.
unfoldable pub ext2_read_file : ℕ → Ext2 → ℕ → ℕ → Outcome (List ℕ)
ext2_read_file gd_room fs inode_num size = bind (read_inode gd_room fs inode_num) λ inode.
    if is_directory inode then failed else read_blocks fs (min size inode.size) 0 inode.block []
