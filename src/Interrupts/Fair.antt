-- ===== src/Interrupts/Fair.antt =====
-- Interrupts of all kinds, handled by src/core/isr.c, give every runnable process its turn.
use hz_os.Base.{
  ℕ, zero, suc, ◌-◌, ◌<◌, ◌≡◌, List, [], ◌∷◌, if◌then◌else◌, ltb, leb, ◌==◌, Option, none, some,
  Option-cases, get_or, length, take, refl, ap, sym, ◌∙◌, subst, Bool-cases, inl, inr, if-both,
}
use hz_os.Process.{Kernel, scheduler_schedule, max_processes}
use hz_os.Process.Pick.{Runs, Runnable}
use hz_os.Process.Fair.{ticks, schedule_fair}
use hz_os.Interrupts.{Machine, call_handler, irq_handler}

-- The interrupts as their numbers, each with the address of its frame.
unfoldable pub interrupts : (ℕ → Machine → Machine) → Machine → List (ℕ × ℕ) → Machine
interrupts call m [] = m
interrupts call m ((int_no, regs) ∷ more) = interrupts call (irq_handler call m int_no regs).1 more

-- The frames of the timer's interrupts.
unfoldable pub timer_frames : List (ℕ × ℕ) → List ℕ
timer_frames [] = []
timer_frames ((int_no, regs) ∷ more) =
    let rest = timer_frames more in if int_no == 32 then regs ∷ rest else rest

module _ (call : ℕ → Machine → Machine)
    (keeps : (f : ℕ) (m : Machine) → (call f m).kernel ≡ m.kernel) where
  call_handler_kept : (m : Machine) (irq : ℕ) → (call_handler call m irq).kernel ≡ m.kernel
  unfolding call_handler
  call_handler_kept m irq =
      let called : Option ℕ → Machine = λ o. elim o [ none ↦ m | some handler ↦ call handler m ] in
      let goal = λ (x : Machine). x.kernel ≡ m.kernel in
      if-both goal (ltb irq 16)
        (elim (Option-cases (get_or m.irq_handlers irq none)) [
          | inl e ↦ subst goal (sym (ap called e)) refl
          | inr (f, e) ↦ subst goal (sym (ap called e)) (keeps f m)
        ])
        refl

  handled_kept :
      (m : Machine) (int_no : ℕ)
      → (if leb 32 int_no then call_handler call m (int_no - 32) else m).kernel ≡ m.kernel
  handled_kept m int_no =
      if-both (λ (x : Machine). x.kernel ≡ m.kernel) (leb 32 int_no)
        (call_handler_kept m (int_no - 32)) refl

  -- Only a timer's interrupt changes the kernel's state, as the scheduler does.
  irq_handler-kernel :
      (m : Machine) (int_no regs : ℕ)
      → (irq_handler call m int_no regs).1.kernel
        ≡ (if int_no == 32 then (scheduler_schedule m.kernel regs).1 else m.kernel)
  unfolding irq_handler
  irq_handler-kernel m int_no regs =
      let k = handled_kept m int_no in
      elim (Bool-cases (int_no == 32)) [
        | inl e ↦ rw e (ap (λ x. (scheduler_schedule x regs).1) k)
        | inr e ↦ rw e k
      ]

  interrupts-ticks :
      (m : Machine) (is : List (ℕ × ℕ))
      → (interrupts call m is).kernel ≡ ticks (timer_frames is) m.kernel
  unfolding interrupts timer_frames ticks
  interrupts-ticks m [] = refl
  interrupts-ticks m ((int_no, regs) ∷ more) =
      let next = irq_handler-kernel m int_no regs in
      interrupts-ticks (irq_handler call m int_no regs).1 more ∙ (elim (Bool-cases (int_no == 32)) [
        | inl e ↦ rw e (ap (ticks (timer_frames more)) (next ∙ rw e refl))
        | inr e ↦ rw e (ap (ticks (timer_frames more)) (next ∙ rw e refl))
      ])

-- As many interrupts as it takes for `t` of the timer's.
first_ticks :
    (is : List (ℕ × ℕ)) (t : ℕ) → (n : ℕ) × (timer_frames (take n is) ≡ take t (timer_frames is))
unfolding timer_frames
first_ticks is zero = (0, refl)
first_ticks [] (suc t) = (0, refl)
first_ticks ((int_no, regs) ∷ more) (suc t) = elim (Bool-cases (int_no == 32)) [
  | inl e ↦ (let (n, same) = first_ticks more t in (suc n, rw e (ap (λ fs. regs ∷ fs) same)))
  | inr e ↦ (let (n, same) = first_ticks more (suc t) in (suc n, rw e same))
]

-- Interrupts of all kinds in any order, among them 32 of the timer, from a state that runs a
-- process: if the registered handlers leave the process table alone, then after some of these
-- interrupts the current process is `p`, for every `p` that is runnable at the start.
pub interrupts_fair :
    (call : ℕ → Machine → Machine) (m : Machine) (is : List (ℕ × ℕ)) (cur p : ℕ)
    → ((f : ℕ) (x : Machine) → (call f x).kernel ≡ x.kernel)
    → Runs m.kernel cur
    → Runnable m.kernel.processes p
    → p < max_processes
    → length (timer_frames is) ≡ max_processes
    → (n : ℕ) × ((interrupts call m (take n is)).kernel.current_process ≡ some p)
interrupts_fair call m is cur p keeps r run lt len =
    let (t, le, hit) = schedule_fair m.kernel cur p (timer_frames is) r run lt len in
    let (n, same) = first_ticks is t in
    (
      n,
      ap (λ (k : Kernel). k.current_process)
            (interrupts-ticks call keeps m (take n is) ∙ ap (λ fs. ticks fs m.kernel) same)
          ∙ hit,
    )
