-- ===== src/Interrupts/Tests.antt =====
-- Interrupts of src/core/isr.c and the tables of src/core/idt.c at concrete inputs.
use hz_os.Base.{
  ℕ, zero, suc, ◌+◌, ◌≡◌, List, [], ◌∷◌, none, some, set, replicate, take, arith, refl,
}
use hz_os.Base.Int.{pos}
use hz_os.Process.{Kernel, zero_process, zero_registers, running, ready}
use hz_os.Interrupts.{
  Machine, idt_init, irq_handler, call_handler, irq_register_handler, timer_callback,
}
use hz_os.Interrupts.Gates.{at, offset, meant, stub_of, idt_init-meant}
use hz_os.Interrupts.Fair.{interrupts, timer_frames, interrupts_fair}

abbrev two : Kernel
two = record {
  processes =
      record zero_process { pid = 1; state = running }
      ∷ record zero_process { pid = 2; state = ready }
      ∷ replicate 30 zero_process;
  next_pid = 3;
  current_process = some 0;
  cr3 = 4096;
  heap = record { placement_addr = 0; heap_start = 0; total_mem_kb = 0; free_list = [] };
  frames = λ a. zero_registers;
}

-- The timer's handler is at address 500.
abbrev machine : Machine
machine = record {
  irq_handlers = set (replicate 16 none) 0 (some 500);
  kernel = two;
  eois = 0;
  tick = 0;
}

abbrev call : ℕ → Machine → Machine
call f m = timer_callback m

-- A key, then the timer, 32 times.
abbrev keys_and_ticks : ℕ → List (ℕ × ℕ)
keys_and_ticks zero = []
keys_and_ticks (suc n) = (33, 9000) ∷ (32, 9000) ∷ keys_and_ticks n

interrupts_fair_example :
    (n : ℕ) × ((interrupts call machine (take n (keys_and_ticks 32))).kernel.current_process
      ≡ some 1)
unfolding timer_frames
interrupts_fair_example =
    interrupts_fair call machine (keys_and_ticks 32) 0 1 (λ f x. refl)
      (record { full = refl; is_current = refl; in_table = omega arith }) refl (omega arith) refl

timer_ticks : (irq_handler call machine 32 9000).1.tick ≡ 1
unfolding irq_handler call_handler
timer_ticks = refl

key_registered :
    (irq_register_handler machine (pos 1) (some 600)).irq_handlers
    ≡ some 500 ∷ some 600 ∷ replicate 14 none
unfolding irq_register_handler
key_registered = refl

abbrev isr_stub : ℕ → ℕ
isr_stub i = 1048576 + i

abbrev irq_stub : ℕ → ℕ
irq_stub i = 2097152 + i

idt_init-meant_example :
    (at (idt_init isr_stub irq_stub) 33 ≡ meant 33 (stub_of isr_stub irq_stub 33))
    × (offset (at (idt_init isr_stub irq_stub) 33) ≡ 2097153)
idt_init-meant_example = idt_init-meant isr_stub irq_stub 33 (λ a e. ground (arith, e))
