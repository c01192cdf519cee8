-- ===== src/Process/Load.antt =====
-- Loading a program into a process, process_load_and_execute of src/core/process.c.
use hz_os.Base.{
  ℕ, ◌≡◌, ◌≢◌, false, Option, none, some, if◌then◌else◌, ◌==◌, ==_of_ne, refl, ap, if-false,
}
use hz_os.Memory.{Memory}
use hz_os.Heap.{Heap}
use hz_os.Elf.{elf_load}
use hz_os.Process.{Kernel, process_at, process_execute}

-- NULL is ignored.
abbrev pub switch_page_directory : Kernel → ℕ → Kernel
switch_page_directory k dir = record k { cr3 = if dir == 0 then k.cr3 else dir }

unfoldable pub loaded : Memory → Kernel → ℕ → ℕ → Option (Memory × Heap) → Memory × Kernel
loaded mem k old_cr3 i none = (mem, switch_page_directory k old_cr3)
loaded mem k old_cr3 i (some (mem', heap)) =
    (mem', process_execute (switch_page_directory (record k { heap = heap }) old_cr3) (some i))

-- The file is the address where it starts, 0 for NULL.
unfoldable pub process_load_and_execute : Memory → Kernel → Option ℕ → ℕ → Memory × Kernel
process_load_and_execute mem k none file = (mem, k)
process_load_and_execute mem k (some i) file =
    let there = switch_page_directory k (process_at k.processes i).page_directory in
    if file == 0 then (mem, k) else loaded mem there k.cr3 i (elf_load (mem, k.heap) file)

-- What a file does to the machine: none that is loaded changes nothing.
abbrev pub outcome : Memory → Kernel → ℕ → Option (Memory × Heap) → Memory × Kernel
outcome mem k i none = (mem, k)
outcome mem k i (some (mem', heap)) = (mem', process_execute (record k { heap = heap }) (some i))

both :
    (mem : Memory) (k : Kernel) (i dir : ℕ) (o : Option (Memory × Heap))
    → (k.cr3 == 0) ≡ false
    → loaded mem (switch_page_directory k dir) k.cr3 i o ≡ outcome mem k i o
unfolding loaded
both mem k i dir none e =
    ap (λ c. (mem, record k { cr3 = c }))
      (if-false (λ c. c ≡ k.cr3) (switch_page_directory k dir).cr3 e refl)
both mem k i dir (some (mem', heap)) e =
    ap (λ c. (mem', process_execute (record k { heap = heap; cr3 = c }) (some i)))
      (if-false (λ c. c ≡ k.cr3) (switch_page_directory k dir).cr3 e refl)

-- Where a page directory is set, process_load_and_execute of a file that elf_load refuses changes
-- nothing, and one that it loads leaves its segments in memory and the heap without the pages that
-- they took, and queues the process, in the page directory that was set before.
pub load_and_execute-outcome :
    (mem : Memory) (k : Kernel) (i file : ℕ)
    → k.cr3 ≢ 0
    → file ≢ 0
    → process_load_and_execute mem k (some i) file ≡ outcome mem k i (elf_load (mem, k.heap) file)
unfolding process_load_and_execute
load_and_execute-outcome mem k i file set there = rw (==_of_ne file 0 there) (
    both mem k i (process_at k.processes i).page_directory (elf_load (mem, k.heap) file)
      (==_of_ne k.cr3 0 set))
