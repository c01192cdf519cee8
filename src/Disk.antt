-- ===== src/Disk.antt =====
-- Block devices and their partitions: src/fs/blockdev.c, src/fs/gpt.c, src/fs/fat32.c and
-- src/fs/exfat.c. What a device reads is a parameter of its record.
mod Tests
pub mod Devices
pub mod Partitions
use hz_os.Base.{
  ℕ, zero, suc, ◌+◌, ◌-◌, ◌*◌, ◌/◌, ◌%◌, ◌^◌, Bool, true, false, ◌&&◌, ◌||◌, not, Option, none,
  some, List, [], ◌∷◌, ◌++◌, get_elem?, get_or, if◌then◌else◌, ltb, ◌==◌,
}
use hz_os.Base.Int.{ℤ, pos, negsuc}
use hz_os.Base.Words.{add32, sub32, mul32}
use hz_os.Base.Text.{codes}
use hz_os.Strings.{strcmp}

-- `read` gives the bytes of `count` sectors from `lba` on, none for an error.
pub record Device : Type 0 where
  pub name : List ℕ
  pub sector_count : ℕ
  pub sector_size : ℕ
  pub read : ℕ → ℕ → Option (List ℕ)

-- The devices from `head` on; `dev` is not registered yet.
unfoldable pub blockdev_register : List Device → Device → List Device
blockdev_register [] dev = dev ∷ []
blockdev_register (current ∷ next) dev = current ∷ blockdev_register next dev

abbrev pub is_zero : ℤ → Bool
is_zero (pos zero) = true
is_zero z = false

unfoldable pub blockdev_find : List Device → List ℕ → Option Device
blockdev_find [] name = none
blockdev_find (current ∷ next) name =
    let rest = blockdev_find next name in
    if is_zero (strcmp current.name name) then some current else rest

-- The little-endian fields of a sector.
abbrev pub at8 : List ℕ → ℕ → ℕ
at8 sector i = get_or sector i 0

abbrev pub at16 : List ℕ → ℕ → ℕ
at16 sector i = at8 sector i + at8 sector (i + 1) * 256

abbrev pub at32 : List ℕ → ℕ → ℕ
at32 sector i = at16 sector i + at16 sector (i + 2) * 2 ^ 16

abbrev pub at64 : List ℕ → ℕ → ℕ
at64 sector i = at32 sector i + at32 sector (i + 4) * 2 ^ 32

-- The number of sectors that data take, by the fields of a boot sector with 512 bytes in a sector.
unfoldable pub data_sectors : List ℕ → ℕ
data_sectors sector =
    let total_sectors = if at16 sector 19 == 0 then at32 sector 32 else at16 sector 19 in
    let fat_sz = if at16 sector 22 == 0 then at32 sector 36 else at16 sector 22 in
    let root_dir_sectors = (at16 sector 17 * 32 + 511) / 512 in
    sub32 total_sectors
      (add32 (add32 (at16 sector 14) (mul32 (at8 sector 16) fat_sz)) root_dir_sectors)

-- Whether a FAT32 volume is found; `none` for a division by zero.
unfoldable pub fat32_init_volume : Device → ℕ → Option Bool
fat32_init_volume dev partition_lba = elim (dev.read partition_lba 1) [
  | none ↦ some false
  | some sector ↦
      if not (at16 sector 11 == 512)
      then some false
      else if at8 sector 13 == 0
      then none
      else some (not (ltb (data_sectors sector / at8 sector 13) 65525))
]

abbrev pub same_bytes : List ℕ → ℕ → List ℕ → Bool
same_bytes sector i [] = true
same_bytes sector i (b ∷ bs) = at8 sector i == b && same_bytes sector (suc i) bs

unfoldable pub exfat_init_volume : Device → ℕ → Bool
exfat_init_volume dev partition_lba = elim (dev.read partition_lba 1) [
  | none ↦ false
  | some sector ↦ same_bytes sector 3 (codes "EXFAT   ") && at16 sector 510 == 0xAA55
]

-- A partition with basic data: its first sector and what was found in it.
pub data Volume : Type 0 where
  exfat : ℕ → Volume
  fat32 : ℕ → Volume
  neither : ℕ → Volume

abbrev pub or_fat32 : ℕ → Option Bool → Option Volume
or_fat32 lba none = none
or_fat32 lba (some true) = some (fat32 lba)
or_fat32 lba (some false) = some (neither lba)

unfoldable pub probe : Device → ℕ → Option Volume
probe dev lba =
    if exfat_init_volume dev lba then some (exfat lba) else or_fat32 lba (fat32_init_volume dev lba)

abbrev pub partition_type_basic_data : List ℕ
partition_type_basic_data =
    0xA2 ∷ 0xA0 ∷ 0xD0 ∷ 0xEB ∷ 0xE5 ∷ 0xB9 ∷ 0x33 ∷ 0x44 ∷ 0x87 ∷ 0xC0 ∷ 0x68 ∷ 0xB6 ∷ 0xB7 ∷ 0x26
    ∷ 0x99 ∷ 0xC7 ∷ []

-- The bytes of the table, and behind it of the heap.
abbrev pub table_at : (ℕ → ℕ) → List ℕ → ℕ → ℕ
table_at heap table i = elim (get_elem? table i) [ none ↦ heap i | some b ↦ b ]

-- n bytes of the table from an offset on.
unfoldable pub entry_bytes : (ℕ → ℕ) → ℕ → ℕ → List ℕ
entry_bytes mem i zero = []
entry_bytes mem i (suc n) = mem i ∷ entry_bytes mem (suc i) n

abbrev pub gpt_entry : (ℕ → ℕ) → ℕ → ℕ → List ℕ
gpt_entry mem entry_size i = entry_bytes mem (mul32 i entry_size) 48

-- An unused entry, whose type is all zeros, has another type than this one.
abbrev pub is_basic : List ℕ → Bool
is_basic entry = same_bytes entry 0 partition_type_basic_data

abbrev pub start_lba : List ℕ → ℕ
start_lba entry = at64 entry 32

abbrev pub and_volume : Option Volume → Option (List Volume) → Option (List Volume)
and_volume none vs = none
and_volume (some v) none = none
and_volume (some v) (some vs) = some (v ∷ vs)

-- The loop over n entries from number i on.
unfoldable pub read_entries : Device → (ℕ → ℕ) → ℕ → ℕ → ℕ → Option (List Volume)
read_entries dev mem entry_size i zero = some []
read_entries dev mem entry_size i (suc n) =
    let entry = gpt_entry mem entry_size i in
    let rest = read_entries dev mem entry_size (suc i) n in
    if is_basic entry then and_volume (probe dev (start_lba entry)) rest else rest

-- The table behind a header.
unfoldable pub read_table : Device → (ℕ → ℕ) → List ℕ → Option (List Volume)
read_table dev heap header =
    let num = at32 header 80 in
    let entry_size = at32 header 84 in
    let sectors_needed = sub32 (add32 (mul32 num entry_size) dev.sector_size) 1 / dev.sector_size in
    if dev.sector_size == 0 then none else elim (dev.read (at64 header 72) sectors_needed) [
      | none ↦ some []
      | some table ↦ read_entries dev (table_at heap table) entry_size 0 num
    ]

-- The volumes found; `heap` is what stands behind the buffer of the table. Its allocation does not
-- fail. `none` for a division by zero.
unfoldable pub gpt_read_table : Device → (ℕ → ℕ) → Option (List Volume)
gpt_read_table dev heap = elim (dev.read 1 1) [
  | none ↦ some []
  | some header ↦
      if at64 header 0 == 0x5452415020494645 then read_table dev heap header else some []
]
