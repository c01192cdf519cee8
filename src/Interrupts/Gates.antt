-- ===== src/Interrupts/Gates.antt =====
-- The descriptor tables of src/core/idt.c and src/core/gdt.c lead to what they were given.
use hz_os.Base.{
  ℕ, zero, suc, ◌+◌, ◌-◌, ◌*◌, ◌/◌, ◌%◌, ◌^◌, ◌≤◌, ◌<◌, ◌≡◌, ◌≢◌, List, [], ◌∷◌, if◌then◌else◌, ltb,
  ◌==◌, get_or, set, replicate, length, length-set, get_or-set_at, dec_lt, false, lt→ltb, ==_of_ne,
  ==_iff, Option, none, some, ℕ_discrete, arith, refl, ap, sym, ◌∙◌,
}
use hz_os.Interrupts.{
  IdtEntry, gate, idt_set_gate, kernel_code, gate_flags, set_gates, isr_install, irq_install,
  idt_init, gdt_set_gate,
}

-- The address that the processor puts together.
abbrev pub offset : IdtEntry → ℕ
offset e = e.base_low + e.base_mid * 2 ^ 16 + e.base_high * 2 ^ 32

abbrev pub zero_gate : IdtEntry
zero_gate = gate 0 0 0

abbrev pub at : List IdtEntry → ℕ → IdtEntry
at idt num = get_or idt num zero_gate

offset-gate : (base sel flags : ℕ) → base < 2 ^ 64 → offset (gate base sel flags) ≡ base
offset-gate base sel flags h = omega arith

get_or-set_other :
    (xs : List IdtEntry) (i j : ℕ) (v : IdtEntry) → i ≢ j → at (set xs i v) j ≡ at xs j
get_or-set_other [] i j v h = refl
get_or-set_other (x ∷ xs) zero zero v h = absurd (h refl)
get_or-set_other (x ∷ xs) zero (suc j) v h = refl
get_or-set_other (x ∷ xs) (suc i) zero v h = refl
get_or-set_other (x ∷ xs) (suc i) (suc j) v h = get_or-set_other xs i j v (λ e. h (ap suc e))

length-set_gates :
    (idt : List IdtEntry) (num : ℕ) (stub : ℕ → ℕ) (i n : ℕ)
    → length (set_gates idt num stub i n) ≡ length idt
unfolding set_gates
length-set_gates idt num stub i zero = refl
length-set_gates idt num stub i (suc n) =
    length-set_gates (idt_set_gate idt num (stub i) kernel_code gate_flags) (suc num) stub (suc i) n
    ∙ length-set idt num _

set_gates_outside :
    (idt : List IdtEntry) (num : ℕ) (stub : ℕ → ℕ) (i n j : ℕ)
    → (num ≤ j → num + n ≤ j)
    → at (set_gates idt num stub i n) j ≡ at idt j
unfolding set_gates
set_gates_outside idt num stub i zero j h = refl
set_gates_outside idt num stub i (suc n) j h =
    set_gates_outside (idt_set_gate idt num (stub i) kernel_code gate_flags) (suc num) stub (suc i)
      n j (λ le. omega (arith, h (omega arith)))
    ∙ get_or-set_other idt num j _ (λ e. absurd (omega (arith, h (omega arith))))

set_gates_inside :
    (idt : List IdtEntry) (num : ℕ) (stub : ℕ → ℕ) (i n j : ℕ)
    → num ≤ j
    → j < num + n
    → num + n ≤ length idt
    → at (set_gates idt num stub i n) j ≡ gate (stub (i + (j - num))) kernel_code gate_flags
unfolding set_gates
set_gates_inside idt num stub i zero j le lt fits = absurd (omega arith)
set_gates_inside idt num stub i (suc n) j le lt fits =
    let idt' = idt_set_gate idt num (stub i) kernel_code gate_flags in
    let target = λ (m : ℕ). gate (stub m) kernel_code gate_flags in
    elim (ℕ_discrete num j) [
      | yes e ↦
          set_gates_outside idt' (suc num) stub (suc i) n j (λ le'. absurd (omega arith))
          ∙ ap (at idt') (sym e)
          ∙ get_or-set_at idt num (target i) zero_gate (omega arith)
          ∙ ap target (omega arith)
      | no ne ↦
          set_gates_inside idt' (suc num) stub (suc i) n j (omega (arith, ne)) (omega arith)
            (omega (arith, length-set idt num (target i)))
          ∙ ap target (omega (arith, ne))
    ]

not_lt : (a b : ℕ) → ¬ (a < b) → ltb a b ≡ false
not_lt a b h = ground (arith, h)

-- The stub that an interrupt number is meant to lead to, and its gate: a present interrupt gate of
-- the kernel's code segment, whose privilege level is 3 for system calls and 0 for the others.
abbrev pub stub_of : (ℕ → ℕ) → (ℕ → ℕ) → ℕ → Option ℕ
stub_of isr irq num =
    if ltb num 32
    then some (isr num)
    else if ltb num 48
    then some (irq (num - 32))
    else if num == 128
    then some (isr 80)
    else none

abbrev pub meant : ℕ → Option ℕ → IdtEntry
meant num none = record {
  base_low = 0;
  sel = 0;
  ist = 0;
  flags = 0;
  base_mid = 0;
  base_high = 0;
  reserved = 0;
}
meant num (some stub) = record {
  base_low = stub % 2 ^ 16;
  sel = 0x08;
  ist = 0;
  flags = if num == 128 then 0xEE else 0x8E;
  base_mid = stub / 2 ^ 16 % 2 ^ 16;
  base_high = stub / 2 ^ 32 % 2 ^ 32;
  reserved = 0;
}

module _ (isr irq : ℕ → ℕ) (idt : List IdtEntry) (num : ℕ) (full : length idt ≡ 256) where
  installed : List IdtEntry
  installed =
      set_gates (idt_set_gate (set_gates idt 0 isr 0 32) 0x80 (isr 80) 0x08 0xEE) 32 irq 0 16

  exceptions_full : length (set_gates idt 0 isr 0 32) ≡ 256
  exceptions_full = length-set_gates idt 0 isr 0 32 ∙ full

  below_32 : num < 32 → at installed num ≡ gate (isr num) 0x08 0x8E
  unfolding installed
  below_32 h =
      set_gates_outside _ 32 irq 0 16 num (λ le. absurd (omega arith))
      ∙ get_or-set_other (set_gates idt 0 isr 0 32) 128 num _ (λ e. absurd (omega arith))
      ∙ set_gates_inside idt 0 isr 0 32 num (omega arith) (omega arith) (omega (arith, full))
      ∙ ap (λ k. gate (isr k) 0x08 0x8E) (omega arith)

  below_48 : 32 ≤ num → num < 48 → at installed num ≡ gate (irq (num - 32)) 0x08 0x8E
  unfolding installed
  below_48 le lt =
      set_gates_inside _ 32 irq 0 16 num le (omega arith) (
        omega (
          arith,
          exceptions_full,
          length-set (set_gates idt 0 isr 0 32) 128 (gate (isr 80) 0x08 0xEE),
        ))
      ∙ ap (λ k. gate (irq k) 0x08 0x8E) (omega arith)

  at_128 : num ≡ 128 → at installed num ≡ gate (isr 80) 0x08 0xEE
  unfolding installed
  at_128 e =
      ap (at installed) e
      ∙ set_gates_outside _ 32 irq 0 16 128 (λ le. omega arith)
      ∙ get_or-set_at (set_gates idt 0 isr 0 32) 128 _ zero_gate (omega (arith, exceptions_full))

  elsewhere : 48 ≤ num → num ≢ 128 → at installed num ≡ at idt num
  unfolding installed
  elsewhere le ne =
      set_gates_outside _ 32 irq 0 16 num (λ le'. omega arith)
      ∙ get_or-set_other (set_gates idt 0 isr 0 32) 128 num _ (λ e. ne (sym e))
      ∙ set_gates_outside idt 0 isr 0 32 num (λ le'. omega arith)

at-replicate : (n i : ℕ) → at (replicate n zero_gate) i ≡ zero_gate
at-replicate zero i = refl
at-replicate (suc n) zero = refl
at-replicate (suc n) (suc i) = at-replicate n i

meant-offset :
    (num : ℕ) (stub : Option ℕ)
    → ((a : ℕ) → stub ≡ some a → a < 2 ^ 64)
    → offset (meant num stub) ≡ (elim stub [ none ↦ 0 | some a ↦ a ])
meant-offset num none h = refl
meant-offset num (some a) h = offset-gate a 0x08 (if num == 128 then 0xEE else 0x8E) (h a refl)

-- The table that idt_init loads has for the numbers 0 to 31 the gates of the stubs of exceptions,
-- for 32 to 47 those of the interrupt lines, for 128 that of system calls, which alone is open to
-- user programs, and no other gate; and if the stubs' addresses are words of 64 bits, the address
-- that a gate gives is that of its stub.
pub idt_init-meant :
    (isr irq : ℕ → ℕ) (num : ℕ)
    → ((a : ℕ) → stub_of isr irq num ≡ some a → a < 2 ^ 64)
    → (at (idt_init isr irq) num ≡ meant num (stub_of isr irq num))
      × (offset (at (idt_init isr irq) num)
          ≡ (elim (stub_of isr irq num) [ none ↦ 0 | some a ↦ a ]))
unfolding idt_init irq_install isr_install installed
idt_init-meant isr irq num small =
    let start = replicate 256 zero_gate in
    let full : length start ≡ 256 = refl in
    let same : at (idt_init isr irq) num ≡ meant num (stub_of isr irq num) = elim (dec_lt num 32) [
      | yes a ↦
          rw (lt→ltb num 32 a, ==_of_ne num 128 (λ e. absurd (omega arith)))
            (below_32 isr irq start num full a)
      | no a ↦ elim (dec_lt num 48) [
        | yes b ↦
            rw (not_lt num 32 a, lt→ltb num 48 b, ==_of_ne num 128 (λ e. absurd (omega arith)))
              (below_48 isr irq start num full (omega arith) b)
        | no b ↦ elim (ℕ_discrete num 128) [
          | yes c ↦
              rw (not_lt num 32 a, not_lt num 48 b, (==_iff num 128).1 c, (==_iff num 128).1 c)
                (at_128 isr irq start num full c)
          | no c ↦
              rw (not_lt num 32 a, not_lt num 48 b, ==_of_ne num 128 c)
                (elsewhere isr irq start num full (omega arith) c ∙ at-replicate 256 num)
        ]
      ]
    ] in
    (same, ap offset same ∙ meant-offset num (stub_of isr irq num) small)

-- A segment's descriptor gives back its base, the lower 20 bits of its limit and its access rights.
pub gdt_set_gate-parts :
    (base limit access gran : ℕ)
    → base < 2 ^ 32
    → let e = gdt_set_gate base limit access gran in
      (e.base_low + e.base_middle * 2 ^ 16 + e.base_high * 2 ^ 24 ≡ base)
      × (e.limit_low + e.granularity % 16 * 2 ^ 16 ≡ limit % 2 ^ 20)
      × (e.granularity / 16 ≡ gran / 16 % 16)
unfolding gdt_set_gate
gdt_set_gate-parts base limit access gran h = (omega arith, omega arith, omega arith)
