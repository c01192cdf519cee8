-- ===== src/Heap/Limits.antt =====
-- Where kmalloc of src/lib/memory.c does not do what memory.h says of it.
use hz_os.Base.{ℕ, ◌+◌, ◌-◌, ◌%◌, ◌^◌, ◌≤◌, ◌<◌, ◌≡◌, false, none, ◌∷◌, arith}
use hz_os.Base.Words.{add64}
use hz_os.Heap.{
  block, header, Heap, round4, find_free_block, kmalloc, kmalloc_rounded, kmalloc_a,
  kmalloc_raw_aligned, bump, align_placement,
}

-- The bump pointer after the round-up, which does not overflow where a page is left.
align_placement_lem :
    (h : Heap)
    → h.placement_addr + 4096 < 2 ^ 64
    → ((align_placement h).placement_addr % 4096 ≡ 0)
      × (h.placement_addr ≤ (align_placement h).placement_addr)
      × ((align_placement h).placement_addr < h.placement_addr + 4096)
unfolding align_placement
align_placement_lem h room = ground arith

-- kmalloc_raw_aligned returns a page-aligned address at or above the bump pointer, and moves the
-- bump pointer to the end of the `size` bytes from there, if these end below 2^64.
pub kmalloc_raw_aligned_lem :
    (h : Heap) (size : ℕ)
    → h.placement_addr + 4096 + size < 2 ^ 64
    → let (p, g) = kmalloc_raw_aligned h size in
      (p % 4096 ≡ 0) × (h.placement_addr ≤ p) × (g.placement_addr ≡ p + size)
unfolding kmalloc_raw_aligned
kmalloc_raw_aligned_lem h size room =
    let (al, up, near) = align_placement_lem h (omega arith) in (al, up, omega arith)

align_placement-free_list : (h : Heap) → (align_placement h).free_list ≡ h.free_list
unfolding align_placement
align_placement-free_list h = ground arith

-- memory.h says of kmalloc_a "Allocate page-aligned": where no free block fits and a page is left
-- below 2^64, the address that it returns is 24 bytes behind a page boundary.
pub kmalloc_a-not_aligned :
    (h : Heap) (size : ℕ)
    → h.placement_addr + 4096 + header < 2 ^ 64
    → find_free_block h.free_list (round4 size) ≡ none
    → (kmalloc_a h size).0 % 4096 ≡ 24
unfolding kmalloc_a kmalloc
kmalloc_a-not_aligned h size room none_fits =
    rw (align_placement-free_list h, none_fits, kmalloc_rounded)
      (unfold bump in (omega (arith, align_placement_lem h (omega arith))))

kmalloc_rounded-none :
    (h : Heap) (size : ℕ)
    → find_free_block h.free_list size ≡ none
    → kmalloc_rounded h size ≡ bump h size
unfolding kmalloc_rounded
kmalloc_rounded-none h size e = rw (e, kmalloc_rounded)

-- A request of more than 2^64 - 4 bytes wraps to zero in the rounding: where no block is free,
-- kmalloc records a block of no bytes for it and returns its address.
pub kmalloc_wraps :
    (h : Heap) (size : ℕ)
    → 2 ^ 64 - 4 < size
    → size < 2 ^ 64
    → find_free_block h.free_list 0 ≡ none
    → kmalloc h size ≡ (
      h.placement_addr + header,
      record h {
        placement_addr = add64 h.placement_addr header;
        free_list = block h.placement_addr 0 false ∷ h.free_list;
      },
    )
unfolding kmalloc bump
kmalloc_wraps h size big small none_free =
    let e : round4 size ≡ 0 = omega arith in rw e (kmalloc_rounded-none h 0 none_free)
