-- ===== src/Ramdisk/Tests.antt =====
-- The RAM disk of src/drivers/ramdisk.c on a small disk.
use hz_os.Base.{ℕ}
use hz_os.Ramdisk.{Ramdisk, ramdisk_init}

abbrev count_up : ℕ → ℕ
count_up i = i

abbrev small : Ramdisk
small = ramdisk_init count_up 16
