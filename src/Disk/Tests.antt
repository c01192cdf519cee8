-- ===== src/Disk/Tests.antt =====
-- Two devices, and a partition table in memory, for src/fs/blockdev.c and src/fs/gpt.c.
use hz_os.Base.{ℕ, ◌-◌, ◌≡◌, none, some, List, [], ◌∷◌, refl, if◌then◌else◌, get_or, ltb}
use hz_os.Base.Text.{codes}
use hz_os.Disk.{
  Device, neither, read_entries, entry_bytes, probe, exfat_init_volume, fat32_init_volume,
  partition_type_basic_data,
}

abbrev disk : List ℕ → Device
disk name = record { name = name; sector_count = 64; sector_size = 512; read = λ lba count. none }

-- Two entries of 128 bytes; the second has basic data and starts at sector 34.
abbrev table : ℕ → ℕ
table i =
    if ltb i 128
    then 0
    else if ltb i 144
    then get_or partition_type_basic_data (i - 128) 0
    else if ltb i 160
    then 0
    else if ltb i 161
    then 34
    else 0

two_entries : read_entries (disk (codes "sda")) table 128 0 2 ≡ some (neither 34 ∷ [])
unfolding read_entries entry_bytes probe exfat_init_volume fat32_init_volume
two_entries = refl
