-- ===== src/Memory/Tests.antt =====
-- The loops of src/lib/memory.c on small memories.
use hz_os.Base.{◌≡◌, ◌↔◌, refl}
use hz_os.Base.Int.{pos}
use hz_os.Memory.{Memory, memcpy, memcmp}
use hz_os.Memory.Blocks.{SameBytes, memcmp_iff}

-- Each address holds itself.
abbrev count_up : Memory
count_up a = a

memcmp_iff_example : (memcmp count_up 4 9 2 ≡ pos 0) ↔ SameBytes count_up 4 9 2
memcmp_iff_example = memcmp_iff count_up 4 9 2

-- A destination inside of the source, behind its first byte, gets copies of copies.
memcpy_overlap : memcpy count_up 1 0 3 3 ≡ 0
unfolding memcpy
memcpy_overlap = refl
