-- ===== src/Elf.antt =====
-- The loader of 32-bit ELF files, src/core/elf.c. Memory is a function from addresses to bytes; a
-- file is the address where it starts.
mod Tests
pub mod Segment
use hz_os.Base.{
  ℕ, zero, suc, ◌+◌, ◌-◌, ◌*◌, ◌/◌, ◌%◌, ◌^◌, Bool, true, false, ◌&&◌, ◌||◌, not, Option, none,
  some, List, [], ◌∷◌, if◌then◌else◌, ltb, leb, ◌==◌,
}
use hz_os.Base.Words.{add32, add64}
use hz_os.Heap.{Heap, kmalloc_raw_aligned}
use hz_os.Memory.{Memory, memset, memcpy}

abbrev pub half : Memory → ℕ → ℕ
half mem a = mem a + mem (a + 1) * 256

abbrev pub word : Memory → ℕ → ℕ
word mem a = half mem a + half mem (a + 2) * 2 ^ 16

-- The tests of the header: the magic number, the class, the type, the machine.
unfoldable pub elf_validate : Memory → ℕ → Bool
elf_validate mem elf_data =
    if elf_data == 0
    then false
    else if not (
        mem elf_data == 0x7F
        && mem (elf_data + 1) == b'E'
        && mem (elf_data + 2) == b'L'
        && mem (elf_data + 3) == b'F')
    then false
    else mem (elf_data + 4) == 1 && half mem (elf_data + 16) == 2 && half mem (elf_data + 18) == 3

abbrev pub elf_get_entry : Memory → ℕ → ℕ
elf_get_entry mem elf_data = word mem (elf_data + 24)

-- The pages of a segment: paging_map is empty, and each page only takes memory from the heap.
unfoldable pub take_pages : Heap → ℕ → Heap
take_pages heap zero = heap
take_pages heap (suc n) = take_pages (kmalloc_raw_aligned heap 4096).1 n

abbrev pub num_pages : ℕ → ℕ
num_pages p_memsz = add32 p_memsz 4095 / 4096

-- The segment of a program header at an address. The size in the file and the offset are read once
-- the memory of the segment is cleared.
unfoldable pub load_segment : Memory × Heap → ℕ → ℕ → Memory × Heap
load_segment (mem, heap) elf_data phdr =
    let p_vaddr = word mem (phdr + 8) in
    let p_memsz = word mem (phdr + 20) in
    let cleared = memset mem p_vaddr 0 p_memsz in
    let p_filesz = word cleared (phdr + 16) in
    let p_offset = word cleared (phdr + 4) in
    (
      if p_filesz == 0 then cleared else memcpy cleared p_vaddr (elf_data + p_offset) p_filesz,
      take_pages heap (num_pages p_memsz),
    )

abbrev pub load_header : Memory × Heap → ℕ → ℕ → Memory × Heap
load_header s elf_data phdr = if word s.0 phdr == 1 then load_segment s elf_data phdr else s

-- The loop over the program headers from number i on. The header is read again in each round; its
-- count has 16 bits, and 65535 rounds are enough.
unfoldable pub load_from : ℕ → ℕ → Memory × Heap → ℕ → Memory × Heap
load_from zero i s elf_data = s
load_from (suc fuel) i s elf_data =
    let phdr = elf_data + word s.0 (elf_data + 28) + i * half s.0 (elf_data + 42) in
    let more = load_from fuel (i + 1) (load_header s elf_data phdr) elf_data in
    if ltb i (half s.0 (elf_data + 44)) then more else s

-- The size of the file is not looked at.
unfoldable pub elf_load : Memory × Heap → ℕ → Option (Memory × Heap)
elf_load s elf_data =
    if elf_validate s.0 elf_data then some (load_from 65535 0 s elf_data) else none
