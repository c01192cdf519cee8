-- ===== src/Heap.antt =====
-- The kernel heap of src/lib/memory.c: a bump pointer, and a list of blocks that are reused first
-- fit and split, never merged. `free_list` is the list of block headers in the order of `next`.
pub mod Valid
pub mod Alloc
pub mod Release
pub mod Limits
pub mod Zeroed
mod Tests
use hz_os.Base.{
  ℕ, ◌+◌, ◌-◌, ◌*◌, ◌/◌, ◌%◌, Bool, true, false, ◌&&◌, Option, none, some, List, [], ◌∷◌, ◌++◌,
  if◌then◌else◌, leb, ◌==◌, ◌!=◌,
}
use hz_os.Base.Words.{add64, sub64}

-- `malloc_block_t` at its address; `next` is the following element of the list.
pub record Block : Type 0 where
  pub addr : ℕ
  pub size : ℕ
  pub free : Bool

abbrev pub block : ℕ → ℕ → Bool → Block
block a n f = record { addr = a; size = n; free = f }

-- `sizeof(malloc_block_t)` on x86-64: 8 + 4 + 4 bytes of padding + 8.
abbrev pub header : ℕ
header = 24

-- The statics of the file.
pub record Heap : Type 0 where
  pub placement_addr : ℕ
  pub heap_start : ℕ
  pub total_mem_kb : ℕ
  pub free_list : List Block

unfoldable pub memory_init : Heap → ℕ → ℕ → Heap
memory_init h base total_kb = record h {
  placement_addr = base;
  heap_start = base;
  total_mem_kb = total_kb;
}

unfoldable pub get_heap_base : Heap → ℕ
get_heap_base h = h.placement_addr

unfoldable pub memory_get_total_kb : Heap → ℕ
memory_get_total_kb h = h.total_mem_kb

unfoldable pub memory_get_used_kb : Heap → ℕ
memory_get_used_kb h = if h.heap_start == 0 then 0 else sub64 h.placement_addr h.heap_start / 1024

-- `(size + 3) & ~3`
abbrev pub round4 : ℕ → ℕ
round4 size = add64 size 3 / 4 * 4

abbrev pub fits : ℕ → Block → Bool
fits size b = b.free && leb size b.size

unfoldable pub find_free_block : List Block → ℕ → Option Block
find_free_block [] size = none
find_free_block (b ∷ bs) size = if fits size b then some b else find_free_block bs size

-- The block that is found, split where the rest holds a header and four bytes.
unfoldable pub carve : ℕ → Block → List Block
carve size b =
    if leb (add64 (add64 size header) 4) b.size
    then block b.addr size false
      ∷ block (b.addr + header + size) (sub64 (sub64 b.size size) header) true
      ∷ []
    else block b.addr b.size false ∷ []

-- What writing through the pointer `a` leaves in the list.
unfoldable pub replace : List Block → ℕ → List Block → List Block
replace [] a new = []
replace (b ∷ bs) a new = if b.addr == a then new ++ bs else b ∷ replace bs a new

-- A fresh block at the bump pointer.
unfoldable pub bump : Heap → ℕ → ℕ × Heap
bump h size = (
  h.placement_addr + header,
  record h {
    placement_addr = add64 h.placement_addr (header + size);
    free_list = block h.placement_addr size false ∷ h.free_list;
  },
)

unfoldable pub kmalloc_rounded : Heap → ℕ → ℕ × Heap
kmalloc_rounded h size = elim (find_free_block h.free_list size) [
  | some b ↦ (b.addr + header, record h { free_list = replace h.free_list b.addr (carve size b) })
  | none ↦ bump h size
]

unfoldable pub kmalloc : Heap → ℕ → ℕ × Heap
unfolding kmalloc_rounded
kmalloc h size = kmalloc_rounded h (round4 size)

unfoldable pub set_free : List Block → ℕ → List Block
set_free [] a = []
set_free (b ∷ bs) a = if b.addr == a then record b { free = true } ∷ bs else b ∷ set_free bs a

unfoldable pub has_header : List Block → ℕ → Bool
has_header [] a = false
has_header (b ∷ bs) a = if b.addr == a then true else has_header bs a

-- `none` for a pointer in front of which no header stands: the C code then writes the word that
-- happens to be there.
unfoldable pub kfree : Heap → ℕ → Option Heap
unfolding set_free has_header
kfree h ptr =
    if ptr == 0
    then some h
    else if has_header h.free_list (sub64 ptr header)
    then some (record h { free_list = set_free h.free_list (sub64 ptr header) })
    else none

-- `(placement_addr & ~0xFFF) + 0x1000` where the low bits are not zero.
unfoldable pub align_placement : Heap → Heap
align_placement h =
    if h.placement_addr % 4096 != 0
    then record h { placement_addr = add64 (h.placement_addr / 4096 * 4096) 4096 }
    else h

unfoldable pub kmalloc_a : Heap → ℕ → ℕ × Heap
unfolding align_placement
kmalloc_a h size = kmalloc (align_placement h) size

unfoldable pub kmalloc_raw_aligned : Heap → ℕ → ℕ × Heap
unfolding align_placement
kmalloc_raw_aligned h size =
    let g = align_placement h in
    (g.placement_addr, record g { placement_addr = add64 g.placement_addr size })
