-- ===== src/Acpi/Tests.antt =====
-- The firmware's tables of src/core/acpi.c in a small memory.
use hz_os.Base.{
  ℕ, ◌≡◌, false, List, [], ◌∷◌, some, if◌then◌else◌, ◌==◌, take, arith, refl, ◌<◌, ◌^◌, zero, suc,
  ◌+◌,
}
use hz_os.Base.Text.{codes}
use hz_os.Acpi.{
  Bytes, Root, Madt, acpi_find_table, acpi_parse_madt, find_from, same_signature,
  acpi_validate_checksum, byte_sum,
}
use hz_os.Acpi.Tables.{FindsTable, find_table-Finds, entry_count, entry_header, little}
use hz_os.Acpi.Entries.{cpus, parse_madt-cpus}

-- A root table at 100 with one entry, and a MADT of one processor at 200.
abbrev cells : List (ℕ × ℕ)
cells =
    (104, 40)
    ∷ (136, 200)
    ∷ (200, b'A')
    ∷ (201, b'P')
    ∷ (202, b'I')
    ∷ (203, b'C')
    ∷ (204, 52)
    ∷ (209, 161)
    ∷ (245, 8)
    ∷ (246, 1)
    ∷ (247, 5)
    ∷ []

abbrev cell : List (ℕ × ℕ) → Bytes
cell [] a = 0
cell ((p, v) ∷ rest) a = if a == p then v else cell rest a

abbrev memory : Bytes
memory = cell cells

abbrev root : Root
root = record { sdt = 100; use_xsdt = false }

abbrev no_cpus : Madt
no_cpus = record { lapic_addr = 0; ioapic_addr = 0; cpu_ids = [] }

madt_found : acpi_find_table memory 0 root (codes "APIC") ≡ some 200
unfolding acpi_find_table find_from same_signature acpi_validate_checksum byte_sum
madt_found = refl

one_entry :
    (j : ℕ)
    → j < entry_count memory root
    → little memory (entry_header memory 0 root j + 4) 4 < 2 ^ 31
one_entry zero h = omega arith
one_entry (suc j) h = absurd (omega (arith, h))

find_table-Finds_example :
    FindsTable memory
      (codes "APIC")
      (entry_header memory 0 root)
      (entry_count memory root)
      (acpi_find_table memory 0 root (codes "APIC"))
find_table-Finds_example =
    find_table-Finds memory 0 root (codes "APIC") (λ e. absurd (omega arith)) (omega arith)
      (omega arith) one_entry

parse_madt-cpus_example :
    (s' : Madt) × (acpi_parse_madt memory 0 root 8 no_cpus ≡ some s')
    × (s'.cpu_ids ≡ take 64 (cpus memory (244 ∷ [])))
parse_madt-cpus_example =
    parse_madt-cpus memory 0 root 8 200 (244 ∷ []) no_cpus madt_found
      (refl, omega arith, omega arith, omega arith) (omega arith)

one_cpu : cpus memory (244 ∷ []) ≡ 5 ∷ []
one_cpu = refl
