-- ===== src/Elf/Segment.antt =====
-- What elf_load of src/core/elf.c does with memory.
use hz_os.Base.{
  ℕ, ◌+◌, ◌≤◌, ◌<◌, ◌≡◌, ◌⊎◌, inr, false, if◌then◌else◌, ◌==◌, arith, ap, ap₂, ◌∙◌, if-both,
  if-false,
}
use hz_os.Heap.{Heap}
use hz_os.Memory.{Memory, memset, memcpy}
use hz_os.Memory.Blocks.{Outside, memset-out, memset-in, memcpy-out, memcpy-copies}
use hz_os.Elf.{word, load_segment}

-- What load_segment makes of memory, for the fields of its header.
abbrev image : Memory → ℕ → ℕ → ℕ → ℕ → Memory
image mem vaddr src filesz memsz =
    let cleared = memset mem vaddr 0 memsz in
    if filesz == 0 then cleared else memcpy cleared vaddr src filesz

image-file :
    (mem : Memory) (vaddr src filesz memsz j : ℕ)
    → filesz ≤ memsz
    → (vaddr + memsz ≤ src) ⊎ (src + filesz ≤ vaddr)
    → j < filesz
    → image mem vaddr src filesz memsz (vaddr + j) ≡ mem (src + j)
image-file mem vaddr src filesz memsz j le apart h =
    let cleared = memset mem vaddr 0 memsz in
    let some_bytes : (filesz == 0) ≡ false = ground (arith, h) in
    if-false (λ (m : Memory). m (vaddr + j) ≡ mem (src + j)) cleared some_bytes
      ((memcpy-copies cleared vaddr src filesz (ground (arith, le, apart))).0 j h
        ∙ memset-out mem vaddr 0 memsz (src + j) (ground (arith, le, apart, h)))

image-zero :
    (mem : Memory) (vaddr src filesz memsz j : ℕ)
    → filesz ≤ j
    → j < memsz
    → image mem vaddr src filesz memsz (vaddr + j) ≡ 0
image-zero mem vaddr src filesz memsz j le h =
    let cleared = memset mem vaddr 0 memsz in
    if-both (λ (m : Memory). m (vaddr + j) ≡ 0) (filesz == 0) (memset-in mem vaddr 0 memsz j h)
      (memcpy-out cleared vaddr src filesz (vaddr + j) (inr (omega (arith, le)))
        ∙ memset-in mem vaddr 0 memsz j h)

image-rest :
    (mem : Memory) (vaddr src filesz memsz a : ℕ)
    → filesz ≤ memsz
    → Outside vaddr memsz a
    → image mem vaddr src filesz memsz a ≡ mem a
image-rest mem vaddr src filesz memsz a le out =
    let cleared = memset mem vaddr 0 memsz in
    let kept = memset-out mem vaddr 0 memsz a out in
    if-both (λ (m : Memory). m a ≡ mem a) (filesz == 0) kept
      (memcpy-out cleared vaddr src filesz a (ground (arith, le, out)) ∙ kept)

-- A word that lies apart from the memory that is cleared stays.
word-cleared :
    (mem : Memory) (p n a : ℕ) → (a + 4 ≤ p) ⊎ (p + n ≤ a) → word (memset mem p 0 n) a ≡ word mem a
word-cleared mem p n a apart =
    let kept : (i : ℕ) → i < 4 → memset mem p 0 n (a + i) ≡ mem (a + i) =
      λ i lt. memset-out mem p 0 n (a + i) (ground (arith, apart, lt)) in
    let b0 : memset mem p 0 n a ≡ mem a = memset-out mem p 0 n a (ground (arith, apart)) in
    omega (
      arith,
      b0,
      kept 1 (omega arith),
      kept 2 (omega arith),
      memset-out mem p 0 n (a + 2 + 1) (ground (arith, apart)),
    )

-- Loading a segment whose header is not cleared with its memory.
load_segment-image :
    (mem : Memory) (heap : Heap) (elf_data phdr : ℕ)
    → (phdr + 32 ≤ word mem (phdr + 8)) ⊎ (word mem (phdr + 8) + word mem (phdr + 20) ≤ phdr)
    → (load_segment (mem, heap) elf_data phdr).0
      ≡ image mem
          (word mem (phdr + 8))
          (elf_data + word mem (phdr + 4))
          (word mem (phdr + 16))
          (word mem (phdr + 20))
unfolding load_segment
load_segment-image mem heap elf_data phdr kept =
    let vaddr = word mem (phdr + 8) in
    let memsz = word mem (phdr + 20) in
    let cleared = memset mem vaddr 0 memsz in
    ap₂ (λ n o. if n == 0 then cleared else memcpy cleared vaddr (elf_data + o) n)
      (word-cleared mem vaddr memsz (phdr + 16) (ground (arith, kept)))
      (word-cleared mem vaddr memsz (phdr + 4) (ground (arith, kept)))

-- A segment that is no larger in the file than in memory, and whose program header of 32 bytes and
-- whose bytes in the file lie apart from where it is loaded, is loaded right: its bytes of the file
-- stand at its address, the rest of it is zero, and memory outside of it is as before.
pub load_segment-memory :
    (mem : Memory) (heap : Heap) (elf_data phdr : ℕ)
    → word mem (phdr + 16) ≤ word mem (phdr + 20)
    → (phdr + 32 ≤ word mem (phdr + 8)) ⊎ (word mem (phdr + 8) + word mem (phdr + 20) ≤ phdr)
    → (word mem (phdr + 8) + word mem (phdr + 20) ≤ elf_data + word mem (phdr + 4))
      ⊎ (elf_data + word mem (phdr + 4) + word mem (phdr + 16) ≤ word mem (phdr + 8))
    → let vaddr = word mem (phdr + 8) in
      let filesz = word mem (phdr + 16) in
      let memsz = word mem (phdr + 20) in
      let mem' = (load_segment (mem, heap) elf_data phdr).0 in
      ((j : ℕ) → j < filesz → mem' (vaddr + j) ≡ mem (elf_data + word mem (phdr + 4) + j))
      × ((j : ℕ) → filesz ≤ j → j < memsz → mem' (vaddr + j) ≡ 0)
      × ((a : ℕ) → Outside vaddr memsz a → mem' a ≡ mem a)
load_segment-memory mem heap elf_data phdr le kept apart =
    let vaddr = word mem (phdr + 8) in
    let src = elf_data + word mem (phdr + 4) in
    let filesz = word mem (phdr + 16) in
    let memsz = word mem (phdr + 20) in
    let at = λ (a : ℕ). ap (λ (m : Memory). m a) (load_segment-image mem heap elf_data phdr kept) in
    (
      λ j h. at (vaddr + j) ∙ image-file mem vaddr src filesz memsz j le apart h,
      λ j h1 h2. at (vaddr + j) ∙ image-zero mem vaddr src filesz memsz j h1 h2,
      λ a out. at a ∙ image-rest mem vaddr src filesz memsz a le out,
    )
