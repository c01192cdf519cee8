-- ===== src/Acpi/Entries.antt =====
-- The entries of the MADT, acpi_parse_madt of src/core/acpi.c.
use hz_os.Base.{
  ℕ, zero, suc, ◌+◌, ◌≤◌, ◌<◌, ◌≡◌, true, false, List, [], ◌∷◌, ◌++◌, Option, none, some,
  if◌then◌else◌, ltb, ◌==◌, Bool, length, take, take-append_room, append-nil, append_assoc, lt→ltb,
  arith, refl, ap, sym, ◌∙◌, Bool-cases, inl, inr, if-both, if-true, if-false,
}
use hz_os.Base.Text.{codes}
use hz_os.Acpi.{
  Bytes, Root, Madt, u32_at, table_length, madt_entry, madt_loop, acpi_find_table, acpi_parse_madt,
}

-- The addresses of the entries from `ptr` on, each of which leads to the next one.
abbrev pub IsChain : Bytes → ℕ → ℕ → List ℕ → Type 0
IsChain mem end ptr [] = end ≤ ptr
IsChain mem end ptr (p ∷ ps) =
    (p ≡ ptr) × (ptr < end) × (1 ≤ mem (ptr + 1)) × IsChain mem end (ptr + mem (ptr + 1)) ps

-- The APIC ids of the entries for processors.
abbrev pub cpus : Bytes → List ℕ → List ℕ
cpus mem [] = []
cpus mem (p ∷ ps) = if mem p == 0 then mem (p + 3) ∷ cpus mem ps else cpus mem ps

if-push :
    (b : Bool) (s : Madt) (id : ℕ)
    → (if b then (record s { cpu_ids = s.cpu_ids ++ (id ∷ []) }) else s).cpu_ids
      ≡ (if b then s.cpu_ids ++ (id ∷ []) else s.cpu_ids)
if-push true s id = refl
if-push false s id = refl

if-both-sides :
    (b : Bool) (x : ℕ) (xs : List ℕ) → (if b then x ∷ [] else []) ++ xs ≡ (if b then x ∷ xs else xs)
if-both-sides true x xs = refl
if-both-sides false x xs = refl

-- What one entry adds to the ids that stand in front of it.
entry-cpus :
    (mem : Bytes) (ptr : ℕ) (s : Madt) (ids : List ℕ)
    → s.cpu_ids ≡ take 64 ids
    → (madt_entry mem ptr s).cpu_ids ≡ take 64 (ids ++ cpus mem (ptr ∷ []))
entry-cpus mem ptr s ids e = elim (Bool-cases (mem ptr == 0)) [
  | inl f ↦
      if-true (λ (t : Madt). t.cpu_ids ≡ take 64 (ids ++ cpus mem (ptr ∷ []))) _ f
        (if-push (ltb (length s.cpu_ids) 64) s (mem (ptr + 3))
          ∙ ap (λ l. if ltb (length l) 64 then l ++ (mem (ptr + 3) ∷ []) else l) e
          ∙ take-append_room 64 ids (mem (ptr + 3))
          ∙ rw f refl)
  | inr f ↦
      if-false (λ (t : Madt). t.cpu_ids ≡ take 64 (ids ++ cpus mem (ptr ∷ []))) _ f
        (if-both (λ (t : Madt). t.cpu_ids ≡ s.cpu_ids) (mem ptr == 1) refl refl
          ∙ e
          ∙ ap (take 64) (sym (append-nil ids))
          ∙ rw f refl)
]

cpus-cons :
    (mem : Bytes) (p : ℕ) (ps : List ℕ) → cpus mem (p ∷ []) ++ cpus mem ps ≡ cpus mem (p ∷ ps)
cpus-cons mem p ps = if-both-sides (mem p == 0) (mem (p + 3)) (cpus mem ps)

madt_loop-cpus :
    (mem : Bytes) (fuel ptr end : ℕ) (ps ids : List ℕ) (s : Madt)
    → IsChain mem end ptr ps
    → length ps ≤ fuel
    → s.cpu_ids ≡ take 64 ids
    → (s' : Madt) × (madt_loop mem fuel ptr end s ≡ some s')
      × (s'.cpu_ids ≡ take 64 (ids ++ cpus mem ps))
unfolding madt_loop
madt_loop-cpus mem zero ptr end [] ids s c enough e = (
  s,
  if-false (λ o. o ≡ some s) none (ground (arith, c)) refl,
  e ∙ ap (take 64) (sym (append-nil ids)),
)
madt_loop-cpus mem (suc fuel) ptr end [] ids s c enough e = (
  s,
  if-false (λ o. o ≡ some s) {b = ltb ptr end} _ (ground (arith, c)) refl,
  e ∙ ap (take 64) (sym (append-nil ids)),
)
madt_loop-cpus mem zero ptr end (p ∷ ps) ids s c enough e = absurd (omega arith)
madt_loop-cpus mem (suc fuel) ptr end (p ∷ ps) ids s (same, lt, moved, c) enough e =
    let (s', ends, found) =
      madt_loop-cpus mem fuel (ptr + mem (ptr + 1)) end ps (ids ++ cpus mem (ptr ∷ []))
        (madt_entry mem ptr s) c (omega arith) (entry-cpus mem ptr s ids e) in
    (
      s',
      if-true (λ o. o ≡ some s') (some s) (lt→ltb ptr end lt) ends,
      found
          ∙ ap (take 64) (
              append_assoc ids (cpus mem (ptr ∷ [])) (cpus mem ps)
              ∙ ap (λ l. ids ++ l) (cpus-cons mem ptr ps ∙ ap (λ q. cpus mem (q ∷ ps)) (sym same))),
    )

-- If a MADT is found and its entries follow each other up to its end, none of length 0, then
-- acpi_parse_madt ends after as many entries as there are, and has listed the APIC ids of the first 64
-- entries for processors, in their order.
pub parse_madt-cpus :
    (mem : Bytes) (hhdm : ℕ) (r : Root) (fuel madt : ℕ) (ps : List ℕ) (s : Madt)
    → acpi_find_table mem hhdm r (codes "APIC") ≡ some madt
    → IsChain mem (madt + table_length mem madt) (madt + 44) ps
    → length ps ≤ fuel
    → (s' : Madt) × (acpi_parse_madt mem hhdm r fuel s ≡ some s')
      × (s'.cpu_ids ≡ take 64 (cpus mem ps))
unfolding acpi_parse_madt
parse_madt-cpus mem hhdm r fuel madt ps s found chain enough =
    let start : Madt = record s { lapic_addr = u32_at mem (madt + 36); cpu_ids = [] } in
    let (s', ends, ids) =
      madt_loop-cpus mem fuel (madt + 44) (madt + table_length mem madt) ps [] start chain enough
        refl in
    let parsed : Option ℕ → Option Madt = λ o. elim o [
      | none ↦ some s
      | some m ↦
          madt_loop mem fuel (m + 44) (m + table_length mem m)
            (record s { lapic_addr = u32_at mem (m + 36); cpu_ids = [] })
    ] in
    (s', ap parsed found ∙ ends, ids)

-- An entry of length 0 is read again and again: the loop ends with no fuel.
pub madt_loop_stuck :
    (mem : Bytes) (fuel ptr end : ℕ) (s : Madt)
    → ptr < end
    → mem (ptr + 1) ≡ 0
    → madt_loop mem fuel ptr end s ≡ none
unfolding madt_loop
madt_loop_stuck mem zero ptr end s lt e = if-true (λ o. o ≡ none) (some s) (ground arith) refl
madt_loop_stuck mem (suc fuel) ptr end s lt e =
    let same : ptr + mem (ptr + 1) ≡ ptr = omega (arith, e) in
    if-true (λ o. o ≡ none) (some s) (ground arith)
      (ap (λ p. madt_loop mem fuel p end (madt_entry mem ptr s)) same
        ∙ madt_loop_stuck mem fuel ptr end (madt_entry mem ptr s) lt e)
