-- ===== src/Process.antt =====
-- Processes and the round-robin scheduler of src/core/process.c. A pointer into `processes` is the
-- index of the entry; `current_idx`, which the code searches for, is then that index.
pub mod Pick
pub mod Create
pub mod Load
pub mod Fair
mod Tests
use hz_os.Base.{
  ℕ, zero, suc, ◌+◌, ◌-◌, ◌%◌, Bool, true, false, ◌||◌, Option, none, some, List, [], ◌∷◌,
  if◌then◌else◌, ltb, ◌==◌, ◌!=◌, length, get_elem?, get_or, set, take, replicate,
}
use hz_os.Base.Words.{add32, add64, sub64}
use hz_os.Heap.{Heap, kmalloc_a}

pub data ProcState : Type 0 where
  unused ready running stopped waiting : ProcState

-- `process_t`. A name is the characters in front of the NUL.
pub record Process : Type 0 where
  pub pid : ℕ
  pub entry_point : ℕ
  pub stack_pointer : ℕ
  pub page_directory : ℕ
  pub state : ProcState
  pub name : List ℕ
  pub kernel_stack : ℕ
  pub rsp : ℕ
  pub is_userland : ℕ

-- `struct registers` of src/core/isr.h; `general` are r15 to r8, rdi, rsi, rbp, rbx, rdx, rcx and
-- rax, in this order.
pub record Registers : Type 0 where
  pub ds : ℕ
  pub general : List ℕ
  pub int_no : ℕ
  pub err_code : ℕ
  pub rip : ℕ
  pub cs : ℕ
  pub rflags : ℕ
  pub rsp : ℕ
  pub ss : ℕ

-- `sizeof(struct registers)`: 23 words.
abbrev pub sizeof_registers : ℕ
sizeof_registers = 184

abbrev pub max_processes : ℕ
max_processes = 32

-- The statics of the file, the register CR3, the heap, and the frames that stand in memory.
pub record Kernel : Type 0 where
  pub processes : List Process
  pub next_pid : ℕ
  pub current_process : Option ℕ
  pub cr3 : ℕ
  pub heap : Heap
  pub frames : ℕ → Registers

abbrev pub zero_process : Process
zero_process = record {
  pid = 0;
  entry_point = 0;
  stack_pointer = 0;
  page_directory = 0;
  state = unused;
  name = [];
  kernel_stack = 0;
  rsp = 0;
  is_userland = 0;
}

abbrev pub zero_registers : Registers
zero_registers = record {
  ds = 0;
  general = replicate 15 0;
  int_no = 0;
  err_code = 0;
  rip = 0;
  cs = 0;
  rflags = 0;
  rsp = 0;
  ss = 0;
}

abbrev kernel_name : List ℕ
kernel_name = b'k' ∷ b'e' ∷ b'r' ∷ b'n' ∷ b'e' ∷ b'l' ∷ []

unfoldable pub process_init : Kernel → Kernel
process_init k = record k {
  processes = set (replicate max_processes zero_process) 0 (record zero_process {
    pid = k.next_pid;
    state = running;
    name = kernel_name;
    page_directory = k.cr3;
  });
  next_pid = add32 k.next_pid 1;
  current_process = some 0;
}

abbrev pub is_unused : Process → Bool
is_unused p = elim p.state [ unused ↦ true | _ ↦ false ]

abbrev pub is_runnable : Process → Bool
is_runnable p = elim p.state [ running ↦ true | ready ↦ true | _ ↦ false ]

-- The loop for a free slot: the index of the first one, counted from `i`.
unfoldable pub free_slot : List Process → ℕ → Option ℕ
free_slot [] i = none
free_slot (p ∷ ps) i = if is_unused p then some i else free_slot ps (i + 1)

unfoldable pub update : List Process → ℕ → (Process → Process) → List Process
update [] i f = []
update (p ∷ ps) zero f = f p ∷ ps
update (p ∷ ps) (suc i) f = p ∷ update ps i f

-- The entry that the loop body fills in. It keeps `rsp`, `kernel_stack` and `is_userland`.
abbrev pub fill : Kernel → List ℕ → ℕ → ℕ → Process → Process
fill k name entry stack p = record p {
  pid = k.next_pid;
  entry_point = entry;
  state = ready;
  name = take 31 name;
  stack_pointer = add64 stack 8192;
  page_directory = k.cr3;
}

-- paging_create_directory returns the current CR3.
unfoldable pub create_at : Kernel → List ℕ → ℕ → ℕ → Kernel
create_at k name entry i =
    let (stack, heap') = kmalloc_a k.heap 8192 in
    record k {
      processes = update k.processes i (fill k name entry stack);
      next_pid = add32 k.next_pid 1;
      heap = heap';
    }

-- The index of the new process; `none` is NULL.
unfoldable pub process_create : Kernel → List ℕ → ℕ → Option ℕ × Kernel
unfolding free_slot create_at update
process_create k name entry = elim (free_slot k.processes 0) [
  | none ↦ (none, k)
  | some i ↦ (some i, create_at k name entry i)
]

abbrev pub process_at : List Process → ℕ → Process
process_at ps i = get_or ps i zero_process

-- `for (i = from; i < from + rounds; i++)` over the indices `(current_idx + i) % MAX_PROCESSES`.
unfoldable pub next_runnable : List Process → ℕ → ℕ → ℕ → Option ℕ
next_runnable ps cur from zero = none
next_runnable ps cur from (suc rounds) =
    let idx = (cur + from) % max_processes in
    let rest = next_runnable ps cur (from + 1) rounds in
    if is_runnable (process_at ps idx) then some idx else rest

-- switch_page_directory, which ignores NULL, called where CR3 differs.
abbrev pub switch_to : ℕ → ℕ → ℕ
switch_to cr3 dir = if cr3 != dir then (if dir == 0 then cr3 else dir) else cr3

unfoldable pub dispatch : Kernel → ℕ → ℕ → Option ℕ → ℕ × Kernel
dispatch k regs cur none = (regs, k)
dispatch k regs cur (some n) = if n == cur then (regs, k) else (
  (process_at k.processes n).rsp,
  record k {
    current_process = some n;
    processes = update k.processes n (λ p. record p { state = running });
    cr3 = switch_to k.cr3 (process_at k.processes n).page_directory;
  },
)

-- Takes the address of the interrupted frame, returns that of the frame to resume.
unfoldable pub scheduler_schedule : Kernel → ℕ → ℕ × Kernel
unfolding dispatch next_runnable update
scheduler_schedule k regs = elim k.current_process [
  | none ↦ (regs, k)
  | some cur ↦
      let saved = record k { processes = update k.processes cur (λ p. record p { rsp = regs }) } in
      dispatch saved regs cur (next_runnable saved.processes cur 1 max_processes)
]

-- The frame that process_execute builds.
abbrev pub start_frame : Process → Registers
start_frame p = record zero_registers {
  rip = p.entry_point;
  cs = 0x08;
  ds = 0x10;
  ss = 0x10;
  rflags = 0x202;
  rsp = p.stack_pointer;
}

unfoldable pub process_execute : Kernel → Option ℕ → Kernel
unfolding update
process_execute k none = k
process_execute k (some i) =
    let p = process_at k.processes i in
    let regs = sub64 p.stack_pointer sizeof_registers in
    record k {
      processes = update k.processes i (λ q. record q { state = ready; rsp = regs });
      frames = λ a. if a == regs then start_frame p else k.frames a;
    }
