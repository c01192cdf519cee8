-- ===== src/Elf/Tests.antt =====
-- The loader of src/core/elf.c on a small segment.
use hz_os.Base.{ℕ, ◌+◌, ◌≤◌, ◌<◌, ◌≡◌, inl, [], arith, if◌then◌else◌, ◌==◌, inr}
use hz_os.Heap.{Heap}
use hz_os.Memory.{Memory}
use hz_os.Memory.Blocks.{Outside}
use hz_os.Elf.{load_segment}
use hz_os.Elf.Segment.{load_segment-memory}

-- A program header at 100: two bytes at 200 of the file, four bytes of memory at 64.
abbrev mem : Memory
mem a =
    if a == 100
    then 1
    else if a == 104
    then 200
    else if a == 108
    then 64
    else if a == 116
    then 2
    else if a == 120
    then 4
    else 0

abbrev heap : Heap
heap = record { placement_addr = 8192; heap_start = 8192; total_mem_kb = 1024; free_list = [] }

load_segment-memory_example :
    let mem' = (load_segment (mem, heap) 0 100).0 in
    ((j : ℕ) → j < 2 → mem' (64 + j) ≡ mem (200 + j))
    × ((j : ℕ) → 2 ≤ j → j < 4 → mem' (64 + j) ≡ 0)
    × ((a : ℕ) → Outside 64 4 a → mem' a ≡ mem a)
load_segment-memory_example =
    load_segment-memory mem heap 0 100 (omega arith) (inr (omega arith)) (inl (omega arith))
