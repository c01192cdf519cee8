-- ===== src/Process/Fair.antt =====
-- The scheduler of src/core/process.c starves nobody.
use hz_os.Base.{
  ℕ, suc, ◌+◌, ◌-◌, ◌%◌, ◌≤◌, ◌<◌, ◌≡◌, inl, inr, some, List, [], ◌∷◌, arith, ap, ◌∙◌, length, take,
  ℕ_discrete, dec_lt,
}
use hz_os.Process.{Kernel, max_processes, scheduler_schedule}
use hz_os.Process.Pick.{Runs, Runnable, Nearest, schedule-Picked}

-- Timer interrupts in a row; the list has the address of the frame that each interrupts.
unfoldable pub ticks : List ℕ → Kernel → Kernel
ticks [] k = k
ticks (regs ∷ more) k = ticks more (scheduler_schedule k regs).1

module _ (p : ℕ) where
  -- The chosen process is at most as far round as the runnable `p`.
  chosen-near :
      (k : Kernel) (cur n d : ℕ)
      → Nearest k.processes cur 1 max_processes n
      → Runnable k.processes p
      → 1 ≤ d
      → p ≡ (cur + d) % max_processes
      → (e : ℕ) × (e < d) × (p ≡ (n + e) % max_processes)
  chosen-near k cur n d near run lo e = elim (dec_lt d near.dist) [
    | yes far ↦ absurd (ground (arith, near.passed d lo far, rw e at run))
    | no le ↦ (d - near.dist, omega (arith, near.least), omega (arith, near.place))
  ]

  -- A process `d` places on is current after at most `d` of the interrupts.
  reaches :
      (d : ℕ) (regs : List ℕ) (k : Kernel) (cur : ℕ)
      → Runs k cur
      → Runnable k.processes p
      → p < max_processes
      → p ≡ (cur + d) % max_processes
      → d ≤ length regs
      → (t : ℕ) × (t ≤ d) × ((ticks (take t regs) k).current_process ≡ some p)
  unfolding ticks
  reaches d [] k cur r run lt e len =
      (0, omega arith, r.is_current ∙ ap some (omega (arith, r.in_table)))
  reaches d (f ∷ fs) k cur r run lt e len = elim (ℕ_discrete d 0) [
    | yes z ↦ (0, omega arith, r.is_current ∙ ap some (omega (arith, r.in_table)))
    | no nz ↦
        let s = schedule-Picked k cur f r in
        elim s.nearest [
          | inl near ↦
              let (d', less, e') = chosen-near k cur s.chosen d near run (omega arith) e in
              let (t, le, hit) =
                reaches d' fs (scheduler_schedule k f).1 s.chosen s.runs (s.same p ∙ run) lt e'
                  (omega arith) in
              (suc t, omega arith, hit)
          | inr (_, nobody) ↦ absurd (ground (arith, nobody p lt))
        ]
  ]

-- A runnable process of a full table is the current one after at most 32 timer interrupts, whatever
-- frames these interrupt.
pub schedule_fair :
    (k : Kernel) (cur p : ℕ) (regs : List ℕ)
    → Runs k cur
    → Runnable k.processes p
    → p < max_processes
    → length regs ≡ max_processes
    → (t : ℕ) × (t ≤ max_processes) × ((ticks (take t regs) k).current_process ≡ some p)
schedule_fair k cur p regs r run lt len = elim (dec_lt p cur) [
  | yes before ↦
      let (t, le, hit) =
        reaches p (p + max_processes - cur) regs k cur r run lt (omega (arith, r.in_table))
          (omega arith) in
      (t, omega (arith, r.in_table), hit)
  | no after ↦
      let (t, le, hit) =
        reaches p (p - cur) regs k cur r run lt (omega (arith, r.in_table)) (omega arith) in
      (t, omega arith, hit)
]
