-- ===== src/Heap/Zeroed.antt =====
-- Zeroed allocation, kmalloc_z of src/lib/memory.c: the heap's block and the memory's bytes.
use hz_os.Base.{ℕ, ◌+◌, ◌^◌, ◌≤◌, ◌<◌, ◌≡◌, false, if◌then◌else◌, ◌==◌, arith, refl, if-false}
use hz_os.Memory.{Memory, memset}
use hz_os.Memory.Blocks.{Outside, memset-in, memset-out}
use hz_os.Heap.{Block, header, Heap, kmalloc}
use hz_os.Heap.Valid.{IsValid, Holds}
use hz_os.Heap.Alloc.{kmalloc-Granted}

abbrev pub zeroed : Memory → ℕ → ℕ → Memory
zeroed mem ptr size = if ptr == 0 then mem else memset mem ptr 0 size

-- The headers of blocks are the heap's, and not part of the memory here.
unfoldable pub kmalloc_z : Memory → Heap → ℕ → ℕ × Memory × Heap
kmalloc_z mem h size = let (ptr, h') = kmalloc h size in (ptr, zeroed mem ptr size, h')

abbrev pub In : Block → ℕ → Type 0
In b x = (b.addr ≤ x) × (x < b.addr + header + b.size)

-- From a valid heap that starts at address 4 or above, where the bump pointer has room below 2^64,
-- kmalloc_z allocates as kmalloc does, every byte from the address that it returns on, as many as
-- were asked for, is 0 afterwards, and every byte of every block that was in use keeps its value.
pub kmalloc_z-zeroes :
    (mem : Memory) (h : Heap) (size : ℕ)
    → IsValid h
    → 4 ≤ h.heap_start
    → h.placement_addr + header + size + 3 < 2 ^ 64
    → ((kmalloc_z mem h size).0 ≡ (kmalloc h size).0)
      × ((kmalloc_z mem h size).2 ≡ (kmalloc h size).1)
      × ((j : ℕ) → j < size → (kmalloc_z mem h size).1 ((kmalloc h size).0 + j) ≡ 0)
      × ((b : Block)
          → Holds b h.free_list
          → b.free ≡ false
          → (x : ℕ) → In b x
          → (kmalloc_z mem h size).1 x ≡ mem x)
unfolding kmalloc_z
kmalloc_z-zeroes mem h size v low room =
    let (a, e, g) = kmalloc-Granted h v low size room in
    let ptr = (kmalloc h size).0 in
    let set : (ptr == 0) ≡ false = ground (arith, e) in
    (
      refl,
      refl,
      λ j lt. if-false (λ m. m (ptr + j) ≡ 0) mem set (memset-in mem ptr 0 size j lt),
      λ b held used x inside.
          let (still, apart) = g.kept b held used in
          let off : Outside ptr size x = ground (arith, apart, e, g.large, inside) in
          if-false (λ m. m x ≡ mem x) mem set (memset-out mem ptr 0 size x off),
    )
