-- ===== src/Process/Create.antt =====
-- process_create and process_execute of src/core/process.c.
use hz_os.Base.{
  ℕ, zero, suc, ◌+◌, ◌-◌, ◌%◌, ◌≤◌, ◌<◌, ◌≡◌, ◌≢◌, inl, inr, true, false, Option, none, some, List,
  [], ◌∷◌, arith, refl, ap, sym, subst, ◌∙◌, length, ℕ_discrete, dec_lt, Bool-cases,
}
use mathlib.Core.Bool.{false≢true}
use hz_os.Base.Words.{sub64, add32}
use hz_os.Heap.{kmalloc_a}
use hz_os.Process.{
  Process, Registers, Kernel, ready, max_processes, is_unused, is_runnable, free_slot, fill,
  create_at, process_create, process_at, process_execute, start_frame, sizeof_registers,
  scheduler_schedule,
}
use hz_os.Process.Pick.{
  Runs, Runnable, Nearest, schedule-Picked, process_at-update_self, process_at-update_ne,
  length-update,
}

-- The first unused slot.
pub record FirstFree (ps : List Process) (i : ℕ) : Type 0 where
  pub in_table : i < length ps
  pub is_free : is_unused (process_at ps i) ≡ true
  pub earlier : (j : ℕ) → j < i → is_unused (process_at ps j) ≡ false

free_slot-FirstFree :
    (ps : List Process) (from : ℕ) {i : ℕ}
    → free_slot ps from ≡ some i
    → (d : ℕ) × (i ≡ from + d) × FirstFree ps d
unfolding free_slot
free_slot-FirstFree [] from e = absurd (cc)
free_slot-FirstFree (p ∷ ps) from {i} e = elim (Bool-cases (is_unused p)) [
  | inl hit ↦
      let e' : i ≡ from = ground (arith, rw hit at e) in
      (
        0,
        omega arith,
        record { in_table = omega arith; is_free = hit; earlier = λ j h. elim h [ ] },
      )
  | inr miss ↦
      let (d, at_d, f) = free_slot-FirstFree ps (from + 1) (rw miss at e) in
      (
        suc d,
        omega arith,
        record {
          in_table = omega (arith, f.in_table);
          is_free = f.is_free;
          earlier = elim [ zero ↦ λ h. miss | suc j ↦ λ h. f.earlier j (omega arith) ];
        },
      )
]

free_slot-none :
    (ps : List Process) (from : ℕ)
    → free_slot ps from ≡ none
    → (j : ℕ) → j < length ps
    → is_unused (process_at ps j) ≡ false
unfolding free_slot
free_slot-none [] from e j h = elim h [ ]
free_slot-none (p ∷ ps) from e zero h = elim (Bool-cases (is_unused p)) [
  | inl hit ↦ absurd (ground (arith, rw hit at e))
  | inr miss ↦ miss
]
free_slot-none (p ∷ ps) from e (suc j) h = elim (Bool-cases (is_unused p)) [
  | inl hit ↦ absurd (ground (arith, rw hit at e))
  | inr miss ↦ free_slot-none ps (from + 1) (rw miss at e) j (omega arith)
]

-- What process_create returns and leaves, for the kernel `k`.
pub data Created (k : Kernel) (name : List ℕ) (entry : ℕ) : Option ℕ × Kernel → Type 0 where
  full :
      ((j : ℕ) → j < length k.processes → is_unused (process_at k.processes j) ≡ false)
      → Created k name entry (none, k)
  filled :
      (i : ℕ) {k' : Kernel}
      → FirstFree k.processes i
      → process_at k'.processes i
        ≡ fill k name entry (kmalloc_a k.heap 8192).0 (process_at k.processes i)
      → ((j : ℕ) → i ≢ j → process_at k'.processes j ≡ process_at k.processes j)
      → k'.next_pid ≡ add32 k.next_pid 1
      → k'.current_process ≡ k.current_process
      → length k'.processes ≡ length k.processes
      → k'.heap ≡ (kmalloc_a k.heap 8192).1
      → Created k name entry (some i, k')

module _ (k : Kernel) (name : List ℕ) (entry : ℕ) where
  created :
      (o : Option ℕ)
      → free_slot k.processes 0 ≡ o
      → Created k name entry
          (elim o [ none ↦ (none, k) | some i ↦ (some i, create_at k name entry i) ])
  unfolding create_at
  created none e = full (free_slot-none k.processes 0 e)
  created (some i) e =
      let (d, at_d, f) = free_slot-FirstFree k.processes 0 e in
      let same : d ≡ i = omega arith in
      let f' = subst (FirstFree k.processes) same f in
      let g = fill k name entry (kmalloc_a k.heap 8192).0 in
      filled i f' (process_at-update_self k.processes i g f'.in_table)
        (λ j ne. process_at-update_ne k.processes i j g ne) refl refl
        (length-update k.processes i g) refl

  -- process_create takes the first unused entry of the table: it gives it the next process number,
  -- the entry point, the first 31 characters of the name, a stack of 8192 bytes from kmalloc_a and
  -- the current page directory, makes it ready, counts the number up modulo 2^32, and leaves every
  -- other entry and the current process alone. It returns NULL and changes nothing exactly where no
  -- entry is unused.
  pub process_create-Created : Created k name entry (process_create k name entry)
  unfolding process_create
  process_create-Created = created (free_slot k.processes 0) refl

-- Besides the current process, only `i` is runnable.
pub record Lone (k : Kernel) (cur i : ℕ) : Type 0 where
  pub runs : Runs k cur
  pub can_run : Runnable k.processes i
  pub in_table : i < max_processes
  pub other : cur ≢ i
  pub idle : (j : ℕ) → j ≢ cur → j ≢ i → is_runnable (process_at k.processes j) ≡ false

-- Going round from `cur` one meets `i` before one is back at `cur`.
meets : (k : Kernel) (cur i : ℕ) → Lone k cur i → ¬ (Nearest k.processes cur 1 max_processes cur)
meets k cur i l near =
    let d = (i + max_processes - cur) % max_processes in
    let lo : 1 ≤ d = omega (arith, l.other, l.in_table, l.runs.in_table) in
    let hi : d < near.dist = omega (arith, near.place, near.least, l.runs.in_table) in
    let e : (cur + d) % max_processes ≡ i = omega (arith, l.in_table, l.runs.in_table) in
    let p = near.passed d lo hi in false≢true (sym (rw e at p) ∙ l.can_run)

-- The scheduler then resumes the saved frame of `i`.
schedule-Lone :
    (k : Kernel) (cur i regs : ℕ)
    → Lone k cur i
    → (scheduler_schedule k regs).0 ≡ (process_at k.processes i).rsp
schedule-Lone k cur i regs l =
    let s = schedule-Picked k cur regs l.runs in
    elim s.nearest [
      | inl near ↦ elim (ℕ_discrete s.chosen i) [
        | yes e ↦ s.resumed ∙ rw e (s.kept i l.other)
        | no ne ↦ elim (ℕ_discrete s.chosen cur) [
          | yes e ↦
              absurd (meets k cur i l (subst (Nearest k.processes cur 1 max_processes) e near))
          | no ne' ↦ absurd (ground (arith, near.can_run, l.idle s.chosen ne' ne))
        ]
      ]
      | inr (_, nobody) ↦ absurd (ground (arith, nobody i l.in_table, l.can_run))
    ]

-- What process_execute leaves for the entry `i` of the table: it is ready, its saved frame lies
-- right below the top of its stack and starts it at its entry point with interrupts on, and every
-- other entry and frame is as it was.
pub record Executed (k : Kernel) (i : ℕ) (k' : Kernel) : Type 0 where
  pub is_ready : (process_at k'.processes i).state ≡ ready
  pub frame_at :
      (process_at k'.processes i).rsp
      ≡ sub64 (process_at k.processes i).stack_pointer sizeof_registers
  pub frame : k'.frames (process_at k'.processes i).rsp ≡ start_frame (process_at k.processes i)
  pub entries : (j : ℕ) → i ≢ j → process_at k'.processes j ≡ process_at k.processes j
  pub memory :
      (a : ℕ)
      → a ≢ sub64 (process_at k.processes i).stack_pointer sizeof_registers
      → k'.frames a ≡ k.frames a
  pub current : k'.current_process ≡ k.current_process
  pub size : length k'.processes ≡ length k.processes

process_execute-Executed :
    (k : Kernel) (i : ℕ) → i < length k.processes → Executed k i (process_execute k (some i))
unfolding process_execute
process_execute-Executed k i lt =
    let regs = sub64 (process_at k.processes i).stack_pointer sizeof_registers in
    let f = λ (q : Process). record q { state = ready; rsp = regs } in
    let e = process_at-update_self k.processes i f lt in
    record {
      is_ready = ap (λ (p : Process). p.state) e;
      frame_at = ap (λ (p : Process). p.rsp) e;
      frame = rw e (ground arith);
      entries = λ j ne. process_at-update_ne k.processes i j f ne;
      memory = λ a ne. ground arith;
      current = refl;
      size = length-update k.processes i f;
    }

-- Nobody but the current process and possibly `i` is runnable.
abbrev pub IdleBut : Kernel → ℕ → ℕ → Type 0
IdleBut k cur i = (j : ℕ) → j ≢ cur → j ≢ i → is_runnable (process_at k.processes j) ≡ false

module _ (k : Kernel) (cur i regs : ℕ) (r : Runs k cur) (lt : i < max_processes) (other : cur ≢ i)
    (idle : IdleBut k cur i) where
  -- Where `i` is an entry of the table that is not the current one, and no third process is
  -- runnable, process_execute of `i` and a timer interrupt resume `i`: the frame returned is the one
  -- that process_execute built, which starts at the entry point of `i`.
  pub execute-runs :
      let k' = process_execute k (some i) in
      ((scheduler_schedule k' regs).0
        ≡ sub64 (process_at k.processes i).stack_pointer sizeof_registers)
      × ((scheduler_schedule k' regs).1.frames (scheduler_schedule k' regs).0
          ≡ start_frame (process_at k.processes i))
  execute-runs =
      let k' = process_execute k (some i) in
      let e = process_execute-Executed k i (omega (arith, r.full)) in
      let l : Lone k' cur i = record {
        runs = record {
          full = e.size ∙ r.full;
          is_current = e.current ∙ r.is_current;
          in_table = r.in_table;
        };
        can_run = ground (arith, e.is_ready);
        in_table = lt;
        other = other;
        idle = λ j nc ni. rw (e.entries j (λ q. ni (sym q))) (idle j nc ni);
      } in
      let back = schedule-Lone k' cur i regs l in
      (
        back ∙ e.frame_at,
        ap (λ (f : ℕ → Registers). f (scheduler_schedule k' regs).0)
              (schedule-Picked k' cur regs l.runs).frames
            ∙ ap k'.frames back
            ∙ e.frame,
      )

FirstFree-unique : (ps : List Process) (i j : ℕ) → FirstFree ps i → FirstFree ps j → i ≡ j
FirstFree-unique ps i j f g = elim (dec_lt i j) [
  | yes lt ↦ absurd (false≢true (sym (g.earlier i lt) ∙ f.is_free))
  | no ge ↦ elim (dec_lt j i) [
    | yes lt ↦ absurd (false≢true (sym (f.earlier j lt) ∙ g.is_free))
    | no ge' ↦ omega arith
  ]
]

-- The same for what process_create may leave.
null_of_Created :
    {k : Kernel} {name : List ℕ} {entry : ℕ} {out : Option ℕ × Kernel}
    → Created k name entry out
    → (cur i regs : ℕ) → Runs k cur
    → FirstFree k.processes i
    → (process_at k.processes i).rsp ≡ 0
    → cur ≢ i
    → IdleBut k cur i
    → (scheduler_schedule out.1 regs).0 ≡ 0
null_of_Created (full all) cur i regs r f z other idle =
    absurd (false≢true (sym (all i f.in_table) ∙ f.is_free))
null_of_Created {k} {name} {entry} (filled j {k'} g new rest pid current size heap) cur i regs r f z
      other idle =
    let same : j ≡ i = FirstFree-unique k.processes j i g f in
    let at_i =
      subst
        (λ a.
          process_at k'.processes a
          ≡ fill k name entry (kmalloc_a k.heap 8192).0 (process_at k.processes a))
        same new in
    let l : Lone k' cur i = record {
      runs = record {
        full = size ∙ r.full;
        is_current = current ∙ r.is_current;
        in_table = r.in_table;
      };
      can_run = rw at_i;
      in_table = omega (arith, f.in_table, r.full);
      other = other;
      idle = λ a nc ni. rw (rest a (λ q. ni (sym q ∙ same))) (idle a nc ni);
    } in
    schedule-Lone k' cur i regs l ∙ ap (λ (p : Process). p.rsp) at_i ∙ z

-- Where no process but the current one is runnable and the first unused entry has never held a saved
-- frame, a timer interrupt right after process_create, before process_execute, makes the scheduler
-- resume the new process at address 0.
pub create-null_frame :
    (k : Kernel) (name : List ℕ) (entry cur i regs : ℕ)
    → Runs k cur
    → FirstFree k.processes i
    → (process_at k.processes i).rsp ≡ 0
    → cur ≢ i
    → IdleBut k cur i
    → (scheduler_schedule (process_create k name entry).1 regs).0 ≡ 0
create-null_frame k name entry cur i regs r f z other idle =
    null_of_Created (process_create-Created k name entry) cur i regs r f z other idle
