-- ===== src/Acpi.antt =====
-- The firmware's tables of src/core/acpi.c, read from a memory of bytes.
pub mod Tables
pub mod Entries
mod Tests
use hz_os.Base.{
  ℕ, zero, suc, ◌+◌, ◌-◌, ◌*◌, ◌/◌, ◌%◌, ◌^◌, Bool, true, false, ◌&&◌, List, [], ◌∷◌, ◌++◌, Option,
  none, some, if◌then◌else◌, ltb, leb, ◌==◌, length, get_or,
}
use hz_os.Base.Text.{codes}
use hz_os.Base.Words.{add64, sub64}

abbrev pub Bytes : Type 0
Bytes = ℕ → ℕ

abbrev pub u32_at : Bytes → ℕ → ℕ
u32_at mem a = mem a + mem (a + 1) * 2 ^ 8 + mem (a + 2) * 2 ^ 16 + mem (a + 3) * 2 ^ 24

abbrev pub u64_at : Bytes → ℕ → ℕ
u64_at mem a = u32_at mem a + u32_at mem (a + 4) * 2 ^ 32

-- A `uint32_t` or `uint64_t` as the bound of a loop over an `int`, which does not run below 0.
abbrev pub int_bound : ℕ → ℕ
int_bound n = if ltb (n % 2 ^ 32) (2 ^ 31) then n % 2 ^ 32 else 0

unfoldable pub byte_sum : Bytes → ℕ → ℕ → ℕ → ℕ
byte_sum mem a zero sum = sum
byte_sum mem a (suc n) sum = byte_sum mem (a + 1) n ((sum + mem a) % 256)

unfoldable pub acpi_validate_checksum : Bytes → ℕ → ℕ → Bool
acpi_validate_checksum mem addr len = byte_sum mem addr (int_bound len) 0 == 0

unfoldable pub same_signature : Bytes → ℕ → List ℕ → Bool
same_signature mem a [] = true
same_signature mem a (c ∷ cs) =
    let rest = same_signature mem (a + 1) cs in if mem a == c then rest else false

-- sizeof(acpi_sdt_header_t)
abbrev pub sizeof_header : ℕ
sizeof_header = 36

abbrev pub table_length : Bytes → ℕ → ℕ
table_length mem header = u32_at mem (header + 4)

-- `g_root_sdt`, which is 0 for NULL, and `g_use_xsdt`.
pub record Root : Type 0 where
  pub sdt : ℕ
  pub use_xsdt : Bool

abbrev pub entry_size : Root → ℕ
entry_size r = if r.use_xsdt then 8 else 4

abbrev pub entries : Bytes → Root → ℕ
entries mem r = int_bound (sub64 (table_length mem r.sdt) sizeof_header / entry_size r)

-- The i-th header; `hhdm` is g_hhdm_offset.
abbrev pub header_at : Bytes → ℕ → Root → ℕ → ℕ
header_at mem hhdm r i =
    let a = r.sdt + sizeof_header + i * entry_size r in
    add64 (if r.use_xsdt then u64_at mem a else u32_at mem a) hhdm

abbrev pub is_table : Bytes → List ℕ → ℕ → Bool
is_table mem signature header =
    same_signature mem header signature
    && acpi_validate_checksum mem header (table_length mem header)

unfoldable pub find_from : Bytes → ℕ → Root → List ℕ → ℕ → ℕ → Option ℕ
find_from mem hhdm r signature i zero = none
find_from mem hhdm r signature i (suc n) =
    let header = header_at mem hhdm r i in
    let rest = find_from mem hhdm r signature (suc i) n in
    if is_table mem signature header then some header else rest

unfoldable pub acpi_find_table : Bytes → ℕ → Root → List ℕ → Option ℕ
acpi_find_table mem hhdm r signature =
    if r.sdt == 0 then none else find_from mem hhdm r signature 0 (entries mem r)

pub record Madt : Type 0 where
  pub lapic_addr : ℕ
  pub ioapic_addr : ℕ
  pub cpu_ids : List ℕ

abbrev pub add_cpu : Madt → ℕ → Madt
add_cpu s id =
    if ltb (length s.cpu_ids) 64 then record s { cpu_ids = s.cpu_ids ++ (id ∷ []) } else s

abbrev pub madt_entry : Bytes → ℕ → Madt → Madt
madt_entry mem ptr s =
    if mem ptr == 0
    then add_cpu s (mem (ptr + 3))
    else if mem ptr == 1
    then record s { ioapic_addr = u32_at mem (ptr + 4) }
    else s

-- `while (ptr < end)`, as long as there is fuel.
unfoldable pub madt_loop : Bytes → ℕ → ℕ → ℕ → Madt → Option Madt
madt_loop mem zero ptr end s = if ltb ptr end then none else some s
madt_loop mem (suc fuel) ptr end s =
    let rest = madt_loop mem fuel (ptr + mem (ptr + 1)) end (madt_entry mem ptr s) in
    if ltb ptr end then rest else some s

-- The entries lie behind the header and two words.
unfoldable pub acpi_parse_madt : Bytes → ℕ → Root → ℕ → Madt → Option Madt
acpi_parse_madt mem hhdm r fuel s = elim (acpi_find_table mem hhdm r (codes "APIC")) [
  | none ↦ some s
  | some madt ↦
      madt_loop mem fuel (madt + 44) (madt + table_length mem madt)
        (record s { lapic_addr = u32_at mem (madt + 36); cpu_ids = [] })
]

abbrev pub acpi_get_cpu_count : Madt → ℕ
acpi_get_cpu_count s = length s.cpu_ids

-- Behind the processors that were found, the array holds what it held before.
abbrev pub acpi_get_cpu_apic_id : Madt → ℕ → ℕ → ℕ
acpi_get_cpu_apic_id s index before = get_or s.cpu_ids index before

-- The addresses from `addr` on in steps of 16, as many as the last number says.
unfoldable pub find_rsdp : Bytes → ℕ → ℕ → ℕ → Option ℕ
find_rsdp mem hhdm addr zero = none
find_rsdp mem hhdm addr (suc n) =
    let virt_addr = add64 addr hhdm in
    let rest = find_rsdp mem hhdm (addr + 16) n in
    if same_signature mem virt_addr (codes "RSD PTR ") && acpi_validate_checksum mem virt_addr 20
    then some virt_addr
    else rest

abbrev pub root_of : Bytes → ℕ → ℕ → Root
root_of mem hhdm rsdp =
    if leb 2 (mem (rsdp + 15))
    then record { sdt = add64 (u64_at mem (rsdp + 24)) hhdm; use_xsdt = true }
    else record { sdt = add64 (u32_at mem (rsdp + 16)) hhdm; use_xsdt = false }

unfoldable pub init_root : Bytes → ℕ → ℕ → Root → Madt → Option (Root × Madt)
init_root mem hhdm fuel r s =
    if acpi_validate_checksum mem r.sdt (table_length mem r.sdt)
    then elim (acpi_parse_madt mem hhdm r fuel s) [ none ↦ none | some s' ↦ some (r, s') ]
    else some (r, s)

-- `suggested` is 0 for NULL. Where no descriptor is found, the root stays unset.
unfoldable pub acpi_init_with_rsdp : Bytes → ℕ → ℕ → ℕ → Madt → Option (Root × Madt)
acpi_init_with_rsdp mem hhdm suggested fuel s =
    elim (if suggested == 0 then find_rsdp mem hhdm 0x80000 32768 else some suggested) [
      | none ↦ some (record { sdt = 0; use_xsdt = false }, s)
      | some rsdp ↦ init_root mem hhdm fuel (root_of mem hhdm rsdp) s
    ]
