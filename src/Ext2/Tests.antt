-- ===== src/Ext2/Tests.antt =====
-- The ext2 reader of src/fs/ext2.c on small volumes.
use hz_os.Base.{ℕ, ◌≡◌, ◌≢◌, [], ◌∷◌, some, refl, arith, if◌then◌else◌, leb, ◌==◌, replicate}
use hz_os.Ramdisk.{ramdisk_init, ramdisk_read, copy}
use hz_os.Ext2.{
  Ext2, Super, Inode, overrun, ok, read_block, read_into, read_inode, parse_inode, byte,
  read_blocks, ext2_read_file, group_desc_size,
}
use hz_os.Ext2.Directory.{unfinished, search, ext2_find_inode, ext2_list_root}
use hz_os.Ext2.Scan.{search-ends}
use hz_os.Ext2.Overrun.{ext2-overruns}

-- Blocks of 128 bytes: the group descriptor in block 1, the inodes in block 2; inode 1 has five
-- bytes, in block 3.
abbrev image : ℕ → ℕ
image i =
    if i == 136
    then 2
    else if i == 260
    then 5
    else if i == 296
    then 3
    else if leb 384 i
    then 7
    else 0

abbrev some_super : Super
some_super = record {
  inodes_count = 8;
  blocks_count = 8;
  free_blocks_count = 0;
  free_inodes_count = 0;
  log_block_size = 0;
  magic = 61267;
  inode_size = 128;
}

abbrev volume : Ext2
volume = record {
  rd = ramdisk_init image 8192;
  super = some_super;
  block_size = 128;
  stack = λ i. 0;
}

abbrev file_inode : Inode
file_inode = record { mode = 0; size = 5; block = 3 ∷ replicate 14 0 }

inode_1 : read_inode 4096 volume 1 ≡ ok file_inode
unfolding read_inode read_into read_block ramdisk_read copy parse_inode byte
inode_1 = refl

content_1 : ext2_read_file 4096 volume 1 10 ≡ ok (replicate 5 7)
unfolding ext2_read_file read_blocks read_inode read_into read_block ramdisk_read copy parse_inode
    byte
content_1 = refl

search-ends_example : search volume (1 ∷ 0 ∷ 0 ∷ 0 ∷ 12 ∷ []) (b'a' ∷ []) 128 0 ≢ unfinished
search-ends_example = search-ends volume (1 ∷ 0 ∷ 0 ∷ 0 ∷ 12 ∷ []) (b'a' ∷ []) 128 0 (omega arith)

-- The same disk with blocks of 1024 bytes.
abbrev large : Ext2
large = record volume { block_size = 1024 }

large_group_desc : read_block large 2 ≡ some (copy image 2048 0 1024)
unfolding read_block ramdisk_read
large_group_desc = refl

ext2-overruns_example :
    (ext2_read_file group_desc_size large 12 64 ≡ overrun)
    × (ext2_find_inode group_desc_size large (b'/' ∷ b'a' ∷ []) ≡ some overrun)
    × (ext2_list_root group_desc_size large ≡ overrun)
ext2-overruns_example =
    ext2-overruns large 12 64 b'a' [] (copy image 2048 0 1024) (omega arith) large_group_desc
      (omega arith)
