-- ===== src/Process/Tests.antt =====
-- The scheduler of src/core/process.c on the table that process_init leaves.
use hz_os.Base.{ℕ, zero, suc, ◌<◌, ◌≡◌, true, false, none, some, [], ◌∷◌, arith, refl, replicate}
use hz_os.Heap.{Heap}
use hz_os.Process.{
  Process, unused, ready, running, Kernel, zero_process, zero_registers, process_init, process_at,
  scheduler_schedule,
}
use hz_os.Process.Pick.{Runs, Picked, schedule-Picked}
use hz_os.Process.Create.{FirstFree, IdleBut}

abbrev empty_heap : Heap
empty_heap = record {
  placement_addr = 2097152;
  heap_start = 2097152;
  total_mem_kb = 65536;
  free_list = [];
}

abbrev kernel_process : Process
kernel_process = record zero_process { pid = 1; state = running; page_directory = 4096 }

abbrev other_process : Process
other_process = record zero_process {
  pid = 2;
  state = ready;
  stack_pointer = 16384;
  entry_point = 77;
}

-- Two processes, of which the kernel's is current.
abbrev two : Kernel
two = record {
  processes = kernel_process ∷ other_process ∷ replicate 30 zero_process;
  next_pid = 3;
  current_process = some 0;
  cr3 = 4096;
  heap = empty_heap;
  frames = λ a. zero_registers;
}

abbrev one : Kernel
one = record two { processes = kernel_process ∷ replicate 31 zero_process }

abbrev before : Kernel
before = record two { processes = []; next_pid = 1; current_process = none }

init_runs_kernel : (process_init before).current_process ≡ some 0
unfolding process_init
init_runs_kernel = refl

two-Runs : Runs two 0
two-Runs = record { full = refl; is_current = refl; in_table = omega arith }

one-Runs : Runs one 0
one-Runs = record { full = refl; is_current = refl; in_table = omega arith }

schedule-Picked_example : Picked two 0 9000 (scheduler_schedule two 9000)
schedule-Picked_example = schedule-Picked two 0 9000 two-Runs

process_at-zero : (n i : ℕ) → process_at (replicate n zero_process) i ≡ zero_process
process_at-zero zero i = refl
process_at-zero (suc n) zero = refl
process_at-zero (suc n) (suc i) = process_at-zero n i

two-IdleBut : IdleBut two 0 1
two-IdleBut zero nc ni = absurd (nc refl)
two-IdleBut (suc zero) nc ni = absurd (ni refl)
two-IdleBut (suc (suc j)) nc ni = rw (process_at-zero 30 j)

one-IdleBut : IdleBut one 0 1
one-IdleBut zero nc ni = absurd (nc refl)
one-IdleBut (suc j) nc ni = rw (process_at-zero 31 j)

one-FirstFree : FirstFree one.processes 1
one-FirstFree = record { in_table = omega arith; is_free = refl; earlier = λ j h. only j h }
  where
    only :
        (j : ℕ)
        → j < 1
        → (elim (process_at one.processes j).state [ unused ↦ true | _ ↦ false ]) ≡ false
    only zero h = refl
    only (suc j) h = absurd (omega arith)
