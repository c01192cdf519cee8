-- ===== src/Interrupts.antt =====
-- Interrupts: the descriptor tables of src/core/idt.c and src/core/gdt.c, and the handlers of
-- src/core/isr.c and src/core/timer.c.
pub mod Gates
pub mod Fair
mod Tests
use hz_os.Base.{
  ℕ, zero, suc, ◌+◌, ◌-◌, ◌*◌, ◌/◌, ◌%◌, ◌^◌, Bool, true, false, ◌&&◌, List, [], ◌∷◌, Option, none,
  some, if◌then◌else◌, ltb, leb, ◌==◌, get_or, set, replicate,
}
use hz_os.Base.Int.{ℤ, pos, negsuc}
use hz_os.Process.{Kernel, scheduler_schedule}

pub record IdtEntry : Type 0 where
  pub base_low : ℕ
  pub sel : ℕ
  pub ist : ℕ
  pub flags : ℕ
  pub base_mid : ℕ
  pub base_high : ℕ
  pub reserved : ℕ

abbrev pub gate : ℕ → ℕ → ℕ → IdtEntry
gate base sel flags = record {
  base_low = base % 65536;
  sel = sel;
  ist = 0;
  flags = flags;
  base_mid = base / 2 ^ 16 % 65536;
  base_high = base / 2 ^ 32 % 2 ^ 32;
  reserved = 0;
}

abbrev pub idt_set_gate : List IdtEntry → ℕ → ℕ → ℕ → ℕ → List IdtEntry
idt_set_gate idt num base sel flags = set idt num (gate base sel flags)

abbrev pub kernel_code : ℕ
kernel_code = 0x08

-- IDT_FLAG_PRESENT | IDT_FLAG_INT32 | IDT_FLAG_RING0
abbrev pub gate_flags : ℕ
gate_flags = 0x8E

-- The gates `num` to `num + n - 1`, for the stubs from `i` on.
unfoldable pub set_gates : List IdtEntry → ℕ → (ℕ → ℕ) → ℕ → ℕ → List IdtEntry
set_gates idt num stub i zero = idt
set_gates idt num stub i (suc n) =
    set_gates (idt_set_gate idt num (stub i) kernel_code gate_flags) (suc num) stub (suc i) n

-- `isr` gives the addresses of the stubs isr0 to isr31 and isr80 of the assembly.
unfoldable pub isr_install : (ℕ → ℕ) → List IdtEntry → List IdtEntry
isr_install isr idt =
    idt_set_gate (set_gates idt 0 isr 0 32) 0x80 (isr 80) kernel_code (gate_flags + 0x60)

-- `irq` gives the addresses of the stubs irq0 to irq15.
unfoldable pub irq_install : (ℕ → ℕ) → List IdtEntry → List IdtEntry
irq_install irq idt = set_gates idt 32 irq 0 16

-- The table that idt_init loads; its gates are 0 before the two calls.
unfoldable pub idt_init : (ℕ → ℕ) → (ℕ → ℕ) → List IdtEntry
idt_init isr irq = irq_install irq (isr_install isr (replicate 256 (gate 0 0 0)))

pub record GdtEntry : Type 0 where
  pub limit_low : ℕ
  pub base_low : ℕ
  pub base_middle : ℕ
  pub access : ℕ
  pub granularity : ℕ
  pub base_high : ℕ

-- `gran & 0xF0` does not meet the four bits of the limit.
unfoldable pub gdt_set_gate : ℕ → ℕ → ℕ → ℕ → GdtEntry
gdt_set_gate base limit access gran = record {
  limit_low = limit % 65536;
  base_low = base % 65536;
  base_middle = base / 2 ^ 16 % 256;
  access = access;
  granularity = limit / 2 ^ 16 % 16 + gran / 16 % 16 * 16;
  base_high = base / 2 ^ 24 % 256;
}

abbrev pub gdt_init : List GdtEntry
gdt_init =
    gdt_set_gate 0 0 0 0
    ∷ gdt_set_gate 0 0xFFFFFFFF 0x9A 0xAF
    ∷ gdt_set_gate 0 0xFFFFFFFF 0x92 0xCF
    ∷ []

-- `irq_handlers` are addresses of functions, `none` is 0; `eois` counts the calls of lapic_eoi.
pub record Machine : Type 0 where
  pub irq_handlers : List (Option ℕ)
  pub kernel : Kernel
  pub eois : ℕ
  pub tick : ℕ

unfoldable pub irq_register_handler : Machine → ℤ → Option ℕ → Machine
irq_register_handler m (negsuc i) handler = m
irq_register_handler m (pos i) handler =
    if ltb i 16 then record m { irq_handlers = set m.irq_handlers i handler } else m

abbrev pub timer_callback : Machine → Machine
timer_callback m = record m { tick = (m.tick + 1) % 2 ^ 32 }

-- `call` is the call of a function at an address.
unfoldable pub call_handler : (ℕ → Machine → Machine) → Machine → ℕ → Machine
call_handler call m irq =
    if ltb irq 16
    then elim (get_or m.irq_handlers irq none) [ none ↦ m | some handler ↦ call handler m ]
    else m

abbrev pub lapic_eoi : Machine → Machine
lapic_eoi m = record m { eois = m.eois + 1 }

abbrev pub resume : Machine → ℕ × Kernel → ℕ × Machine
resume m (regs, k) = (regs, record m { kernel = k })

-- Takes the number of the interrupt and the address of the interrupted frame, and gives that of the
-- frame to resume.
unfoldable pub irq_handler : (ℕ → Machine → Machine) → Machine → ℕ → ℕ → ℕ × Machine
irq_handler call m int_no regs =
    let handled = lapic_eoi (if leb 32 int_no then call_handler call m (int_no - 32) else m) in
    if int_no == 32
    then resume handled (scheduler_schedule handled.kernel regs)
    else (regs, handled)
