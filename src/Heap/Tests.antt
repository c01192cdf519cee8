-- ===== src/Heap/Tests.antt =====
-- The heap of src/lib/memory.c at a concrete state: a used block, and a free one behind it.
use hz_os.Base.{ℕ, ◌+◌, ◌≡◌, inr, true, false, [], ◌∷◌, arith, refl, ◌<◌}
use hz_os.Heap.{Block, block, header, Heap, find_free_block, carve, replace, kmalloc}
use hz_os.Memory.{Memory}
use hz_os.Heap.Zeroed.{In, kmalloc_z, kmalloc_z-zeroes}
use hz_os.Heap.Valid.{IsValid, Holds}
use hz_os.Heap.Alloc.{Granted, kmalloc-IsValid, kmalloc-Granted}

abbrev used : Block
used = block 4096 8 false

abbrev spare : Block
spare = block 4128 100 true

abbrev two_blocks : Heap
two_blocks = record {
  placement_addr = 4252;
  heap_start = 4096;
  total_mem_kb = 1024;
  free_list = spare ∷ used ∷ [];
}

abbrev full : Heap
full = record two_blocks { free_list = used ∷ [] }

two_blocks-IsValid : IsValid two_blocks
two_blocks-IsValid = record {
  started = omega arith;
  small = omega arith;
  in_range = (omega arith, (omega arith, tt));
  apart = ((inr (omega arith), tt), (tt, tt));
}

-- The free block is split: 13 bytes are rounded to 16, and 60 are left behind a new header.
kmalloc_splits :
    kmalloc two_blocks 13
    ≡ (4152, record two_blocks { free_list = block 4128 16 false ∷ block 4168 60 true ∷ used ∷ [] })
unfolding kmalloc find_free_block carve replace
kmalloc_splits = refl

kmalloc-IsValid_example : IsValid (kmalloc two_blocks 13).1
kmalloc-IsValid_example =
    kmalloc-IsValid two_blocks two_blocks-IsValid (omega arith) 13 (omega arith)

kmalloc-Granted_example :
    (a : ℕ) × ((kmalloc two_blocks 13).0 ≡ a + header)
    × Granted 13 two_blocks.free_list (kmalloc two_blocks 13).1.free_list a
kmalloc-Granted_example =
    kmalloc-Granted two_blocks two_blocks-IsValid (omega arith) 13 (omega arith)

abbrev sevens : Memory
sevens a = 7

kmalloc_z-zeroes_example :
    ((kmalloc_z sevens two_blocks 13).0 ≡ (kmalloc two_blocks 13).0)
    × ((kmalloc_z sevens two_blocks 13).2 ≡ (kmalloc two_blocks 13).1)
    × ((j : ℕ) → j < 13 → (kmalloc_z sevens two_blocks 13).1 ((kmalloc two_blocks 13).0 + j) ≡ 0)
    × ((b : Block)
        → Holds b two_blocks.free_list
        → b.free ≡ false
        → (x : ℕ) → In b x
        → (kmalloc_z sevens two_blocks 13).1 x ≡ sevens x)
kmalloc_z-zeroes_example =
    kmalloc_z-zeroes sevens two_blocks 13 two_blocks-IsValid (omega arith) (omega arith)
