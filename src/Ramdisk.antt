-- ===== src/Ramdisk.antt =====
-- The RAM disk, src/drivers/ramdisk.c.
mod Tests
pub mod Range
use hz_os.Base.{
  ℕ, zero, suc, ◌+◌, ◌%◌, ◌^◌, Bool, true, false, Option, none, some, List, [], ◌∷◌, if◌then◌else◌,
  ltb,
}
use hz_os.Base.Words.{add32}

-- rd_base, NULL or memory from that address on, and rd_size.
pub record Ramdisk : Type 0 where
  pub base : Option (ℕ → ℕ)
  pub size : ℕ

abbrev pub ramdisk_init : (ℕ → ℕ) → ℕ → Ramdisk
ramdisk_init base size = record { base = some base; size = size }

abbrev pub ramdisk_size : Ramdisk → ℕ
ramdisk_size rd = rd.size

-- The loop: `rd_base[offset + i]` for i from `i` on, n times; the sum has 32 bits.
unfoldable pub copy : (ℕ → ℕ) → ℕ → ℕ → ℕ → List ℕ
copy mem offset i zero = []
copy mem offset i (suc n) = mem (add32 offset i) ∷ copy mem offset (suc i) n

-- The bytes that are written to the buffer, none for -1.
unfoldable pub ramdisk_read : Ramdisk → ℕ → ℕ → Option (List ℕ)
ramdisk_read rd offset len = elim rd.base [
  | none ↦ none
  | some mem ↦ if ltb rd.size (add32 offset len) then none else some (copy mem offset 0 len)
]
