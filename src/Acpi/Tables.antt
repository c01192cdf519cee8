-- ===== src/Acpi/Tables.antt =====
-- Finding a table of the firmware, acpi_find_table of src/core/acpi.c.
use hz_os.Base.Words.{sub64}
use hz_os.Base.{
  ℕ, zero, suc, ◌+◌, ◌≤◌, ◌<◌, ◌≡◌, ◌≢◌, Bool, true, false, List, Option, none, some, ==_of_ne,
  ℕ_discrete, arith, refl, ap, sym, ◌∙◌, Bool-cases, inl, inr, if-true, if-false, [], ◌∷◌, ◌%◌, ◌^◌,
  ◌==◌, ==_iff, length, get_or, subst, ◌-◌, ◌*◌, ◌/◌, if◌then◌else◌,
}
use hz_os.Acpi.{
  Bytes, Root, header_at, is_table, find_from, entries, acpi_find_table, u32_at, byte_sum,
  acpi_validate_checksum, same_signature, table_length, int_bound, u64_at, entry_size,
}

-- The outcome of a search among the entries from `i` to `i + n - 1` for a table that `good` says is
-- the one: its header is the first good one, or none is good.
abbrev pub Finds : (ℕ → Bool) → (ℕ → ℕ) → ℕ → ℕ → Option ℕ → Type 0
Finds good header i n none = (j : ℕ) → i ≤ j → j < i + n → good (header j) ≡ false
Finds good header i n (some h) =
    (k : ℕ) × (i ≤ k)
    × (k < i + n)
    × (h ≡ header k)
    × (good h ≡ true)
    × ((j : ℕ) → i ≤ j → j < k → good (header j) ≡ false)

skipped :
    (good : ℕ → Bool) (header : ℕ → ℕ) (i end : ℕ)
    → good (header i) ≡ false
    → ((j : ℕ) → suc i ≤ j → j < end → good (header j) ≡ false)
    → (j : ℕ) → i ≤ j
    → j < end
    → good (header j) ≡ false
skipped good header i end e f j le lt = elim (ℕ_discrete i j) [
  | yes same ↦ ap (λ m. good (header m)) (sym same) ∙ e
  | no ne ↦ f j (omega (arith, ne)) lt
]

-- One more entry in front, which is not good.
Finds-skip :
    (good : ℕ → Bool) (header : ℕ → ℕ) (i n : ℕ)
    → good (header i) ≡ false
    → (out : Option ℕ) → Finds good header (suc i) n out
    → Finds good header i (suc n) out
Finds-skip good header i n e none f =
    skipped good header i (i + suc n) e (λ j le lt. f j le (omega arith))
Finds-skip good header i n e (some h) (k, le, lt, same, ok, before) =
    (k, omega arith, omega arith, same, ok, skipped good header i k e before)

find_from-Finds :
    (mem : Bytes) (hhdm : ℕ) (r : Root) (signature : List ℕ) (i n : ℕ)
    → Finds (is_table mem signature) (header_at mem hhdm r) i n (find_from mem hhdm r signature i n)
unfolding find_from
find_from-Finds mem hhdm r signature i zero = λ j le lt. absurd (omega arith)
find_from-Finds mem hhdm r signature i (suc n) =
    let good = is_table mem signature in
    let header = header_at mem hhdm r in
    let rest = find_from-Finds mem hhdm r signature (suc i) n in
    elim (Bool-cases (good (header i))) [
      | inl e ↦
          if-true (Finds good header i (suc n)) (find_from mem hhdm r signature (suc i) n) e
            (i, omega arith, omega arith, refl, e, (λ j le lt. absurd (omega arith)))
      | inr e ↦
          if-false (Finds good header i (suc n)) (some (header i)) e
            (Finds-skip good header i n e (find_from mem hhdm r signature (suc i) n) rest)
    ]

-- The sum of n bytes from an address on.
unfoldable pub total : Bytes → ℕ → ℕ → ℕ
total mem a zero = 0
total mem a (suc n) = mem a + total mem (a + 1) n

byte_sum-total :
    (mem : Bytes) (a n sum : ℕ) → sum < 256 → byte_sum mem a n sum ≡ (sum + total mem a n) % 256
unfolding byte_sum total
byte_sum-total mem a zero sum h = omega arith
byte_sum-total mem a (suc n) sum h =
    omega (arith, byte_sum-total mem (a + 1) n ((sum + mem a) % 256) (omega arith))

-- n bytes from an address on as a number, the low byte first.
abbrev pub little : Bytes → ℕ → ℕ → ℕ
little mem a zero = 0
little mem a (suc n) = mem a + 256 * little mem (a + 1) n

little-u32 : (mem : Bytes) (a : ℕ) → u32_at mem a ≡ little mem a 4
little-u32 mem a =
    let at : (i j : ℕ) → i ≡ j → mem i ≡ mem j = λ i j e. ap mem e in
    omega (arith, at (a + 2) (a + 1 + 1) (omega arith), at (a + 3) (a + 1 + 1 + 1) (omega arith))

-- A table: its first bytes are the signature, and its bytes, as many as the word at its byte 4 says,
-- sum to a multiple of 256.
pub record IsTable (mem : Bytes) (signature : List ℕ) (header : ℕ) : Type 0 where
  pub signed : (i : ℕ) → i < length signature → mem (header + i) ≡ get_or signature i 0
  pub sums : total mem header (little mem (header + 4) 4) % 256 ≡ 0

signature-signed :
    (mem : Bytes) (a : ℕ) (cs : List ℕ)
    → same_signature mem a cs ≡ true
    → (i : ℕ) → i < length cs
    → mem (a + i) ≡ get_or cs i 0
unfolding same_signature
signature-signed mem a [] e i h = absurd (omega (arith, h))
signature-signed mem a (c ∷ cs) e zero h = ground (arith, e)
signature-signed mem a (c ∷ cs) e (suc i) h =
    let rest : same_signature mem (a + 1) cs ≡ true = ground (arith, e) in
    ap mem (omega arith) ∙ signature-signed mem (a + 1) cs rest i (omega (arith, h))

signed-signature :
    (mem : Bytes) (a : ℕ) (cs : List ℕ)
    → ((i : ℕ) → i < length cs → mem (a + i) ≡ get_or cs i 0)
    → same_signature mem a cs ≡ true
unfolding same_signature
signed-signature mem a [] h = refl
signed-signature mem a (c ∷ cs) h =
    let first : mem a ≡ c = ap mem (omega arith) ∙ h 0 (omega arith) in
    let rest =
      signed-signature mem (a + 1) cs
        (λ i lt. ap mem (omega arith) ∙ h (suc i) (omega (arith, lt))) in
    ground (arith, first, rest)

module _ (mem : Bytes) (signature : List ℕ) (header : ℕ)
    (short : table_length mem header < 2 ^ 31) where
  checksum-total :
      acpi_validate_checksum mem header (table_length mem header)
      ≡ (total mem header (table_length mem header) % 256 == 0)
  unfolding acpi_validate_checksum
  checksum-total =
      let len = table_length mem header in
      let bound : int_bound len ≡ len = ground (arith, short) in
      ap (λ n. byte_sum mem header n 0 == 0) bound
      ∙ ap (λ s. s == 0) (byte_sum-total mem header len 0 (omega arith) ∙ omega arith)

  is_table-IsTable : is_table mem signature header ≡ true → IsTable mem signature header
  is_table-IsTable e =
      let same : same_signature mem header signature ≡ true = ground (arith, e) in
      let sum : acpi_validate_checksum mem header (table_length mem header) ≡ true =
        ground (arith, e) in
      record {
        signed = signature-signed mem header signature same;
        sums =
            ap (λ n. total mem header n % 256) (sym (little-u32 mem (header + 4)))
            ∙ (==_iff (total mem header (table_length mem header) % 256) 0).0
                (sym checksum-total ∙ sum);
      }

  IsTable-is_table : IsTable mem signature header → is_table mem signature header ≡ true
  IsTable-is_table t =
      let same = signed-signature mem header signature t.signed in
      let sum =
        checksum-total
        ∙ (==_iff (total mem header (table_length mem header) % 256) 0).1
            (ap (λ n. total mem header n % 256) (little-u32 mem (header + 4)) ∙ t.sums) in
      rw (same, sum) refl

-- The outcome of a search among the first n entries for the first table that has the signature.
abbrev pub FindsTable : Bytes → List ℕ → (ℕ → ℕ) → ℕ → Option ℕ → Type 0
FindsTable mem signature header n none = (j : ℕ) → j < n → ¬ IsTable mem signature (header j)
FindsTable mem signature header n (some h) =
    (k : ℕ) × (k < n)
    × (h ≡ header k)
    × IsTable mem signature h
    × ((j : ℕ) → j < k → ¬ IsTable mem signature (header j))

Finds-FindsTable :
    (mem : Bytes) (signature : List ℕ) (header : ℕ → ℕ) (n : ℕ)
    → ((j : ℕ) → j < n → table_length mem (header j) < 2 ^ 31)
    → (out : Option ℕ) → Finds (is_table mem signature) header 0 n out
    → FindsTable mem signature header n out
Finds-FindsTable mem signature header n short none f = λ j lt t. absurd (
    let yes_it = IsTable-is_table mem signature (header j) (short j lt) t in
    let no_it = f j (omega arith) (omega (arith, lt)) in ground (arith, yes_it, no_it))
Finds-FindsTable mem signature header n short (some h) (k, lo, lt, same, ok, before) = (
  k,
  omega (arith, lt),
  same,
  is_table-IsTable mem signature h
      (subst (λ a. table_length mem a < 2 ^ 31) (sym same) (short k (omega (arith, lt)))) ok,
  λ j less t. absurd (
      let yes_it =
        IsTable-is_table mem signature (header j) (short j (omega (arith, less, lt))) t in
      let no_it = before j (omega arith) less in ground (arith, yes_it, no_it)),
)

FindsTable-agree :
    (mem : Bytes) (signature : List ℕ) {header header' : ℕ → ℕ} {n n' : ℕ}
    → ((j : ℕ) → header j ≡ header' j)
    → n ≡ n'
    → (out : Option ℕ) → FindsTable mem signature header n out
    → FindsTable mem signature header' n' out
FindsTable-agree mem signature same count none f =
    λ j lt t. f j (omega (arith, count, lt)) (subst (IsTable mem signature) (sym (same j)) t)
FindsTable-agree mem signature same count (some h) (k, lt, at, table, before) = (
  k,
  omega (arith, count, lt),
  at ∙ same k,
  table,
  λ j less t. before j less (subst (IsTable mem signature) (sym (same j)) t),
)

-- The number of entries of a root table and the header that the j-th gives, as the ACPI
-- specification has them: behind the 36 bytes of the header follow addresses of 8 bytes in an XSDT
-- and of 4 bytes in an RSDT.
abbrev pub entry_count : Bytes → Root → ℕ
entry_count mem r = (little mem (r.sdt + 4) 4 - 36) / (if r.use_xsdt then 8 else 4)

abbrev pub entry_header : Bytes → ℕ → Root → ℕ → ℕ
entry_header mem hhdm r j =
    ((if r.use_xsdt then little mem (r.sdt + 36 + j * 8) 8 else little mem (r.sdt + 36 + j * 4) 4)
      + hhdm)
    % 2 ^ 64

little-u64 : (mem : Bytes) (a : ℕ) → u64_at mem a ≡ little mem a 8
little-u64 mem a =
    let at : (i j : ℕ) → i ≡ j → mem i ≡ mem j = λ i j e. ap mem e in
    omega (
      arith,
      at (a + 2) (a + 1 + 1) (omega arith),
      at (a + 3) (a + 1 + 1 + 1) (omega arith),
      at (a + 4) (a + 1 + 1 + 1 + 1) (omega arith),
      at (a + 4 + 1) (a + 1 + 1 + 1 + 1 + 1) (omega arith),
      at (a + 4 + 2) (a + 1 + 1 + 1 + 1 + 1 + 1) (omega arith),
      at (a + 4 + 3) (a + 1 + 1 + 1 + 1 + 1 + 1 + 1) (omega arith),
    )

header-entry :
    (mem : Bytes) (hhdm : ℕ) (r : Root) (j : ℕ) → header_at mem hhdm r j ≡ entry_header mem hhdm r j
header-entry mem hhdm r j = elim (Bool-cases r.use_xsdt) [
  | inl e ↦ rw e (ap (λ n. (n + hhdm) % 2 ^ 64) (little-u64 mem (r.sdt + 36 + j * 8)))
  | inr e ↦ rw e (ap (λ n. (n + hhdm) % 2 ^ 64) (little-u32 mem (r.sdt + 36 + j * 4)))
]

entries-count :
    (mem : Bytes) (r : Root)
    → 36 ≤ table_length mem r.sdt
    → table_length mem r.sdt < 2 ^ 31
    → entries mem r ≡ entry_count mem r
entries-count mem r lo hi =
    let len = table_length mem r.sdt in
    let same : len ≡ little mem (r.sdt + 4) 4 = little-u32 mem (r.sdt + 4) in
    let left : sub64 len 36 ≡ len - 36 = omega (arith, lo, hi) in
    let bound : (n : ℕ) → n < 2 ^ 31 → int_bound n ≡ n = λ n h. ground (arith, h) in
    ap (λ n. int_bound (n / entry_size r)) left
    ∙ bound ((len - 36) / entry_size r) (elim (Bool-cases r.use_xsdt) [
      | inl e ↦ rw e (let small : (len - 36) / 8 < 2 ^ 31 = omega (arith, hi) in small)
      | inr e ↦ rw e (let small : (len - 36) / 4 < 2 ^ 31 = omega (arith, hi) in small)
    ])
    ∙ ap (λ n. (n - 36) / entry_size r) same

-- Where the root table is set and its length and that of every entry's table are below 2^31, the
-- root's at least 36, acpi_find_table gives the first of the tables that its entries lead to, plus
-- the offset of the direct map, that has the signature and whose bytes, as many as its length says,
-- sum to 0 modulo 256; and NULL only if no entry leads to one.
pub find_table-Finds :
    (mem : Bytes) (hhdm : ℕ) (r : Root) (signature : List ℕ)
    → r.sdt ≢ 0
    → 36 ≤ little mem (r.sdt + 4) 4
    → little mem (r.sdt + 4) 4 < 2 ^ 31
    → ((j : ℕ) → j < entry_count mem r → little mem (entry_header mem hhdm r j + 4) 4 < 2 ^ 31)
    → FindsTable mem signature
        (entry_header mem hhdm r)
        (entry_count mem r)
        (acpi_find_table mem hhdm r signature)
unfolding acpi_find_table
find_table-Finds mem hhdm r signature ne lo hi short =
    let header = header_at mem hhdm r in
    let len = little-u32 mem (r.sdt + 4) in
    let count = entries-count mem r (omega (arith, len, lo)) (omega (arith, len, hi)) in
    let below : (j : ℕ) → j < entries mem r → table_length mem (header j) < 2 ^ 31 = λ j lt.
      subst (λ h. table_length mem h < 2 ^ 31) (sym (header-entry mem hhdm r j))
        (omega (
          arith,
          little-u32 mem (entry_header mem hhdm r j + 4),
          short j (omega (arith, count, lt)),
        )) in
    FindsTable-agree mem signature (header-entry mem hhdm r) count
      (acpi_find_table mem hhdm r signature)
      (unfold acpi_find_table in
        (if-false (FindsTable mem signature header (entries mem r)) none (==_of_ne r.sdt 0 ne) (
          Finds-FindsTable mem signature header (entries mem r) below
            (find_from mem hhdm r signature 0 (entries mem r))
            (find_from-Finds mem hhdm r signature 0 (entries mem r)))))
