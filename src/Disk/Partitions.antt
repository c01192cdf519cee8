-- ===== src/Disk/Partitions.antt =====
-- The volumes that gpt_read_table of src/fs/gpt.c finds.
use hz_os.Base.{
  ℕ, zero, suc, ◌+◌, ◌≤◌, ◌<◌, ◌≡◌, true, Option, none, some, List, All, All-mono, arith, refl,
  subst, Bool-cases, inl, inr, if-true, if-false,
}
use hz_os.Disk.{Device, Volume, read_entries, gpt_entry, is_basic, start_lba, probe, and_volume}

-- The volume is what probing finds at the start of an entry with basic data, from i on, before the end.
abbrev pub Origin : Device → (ℕ → ℕ) → ℕ → ℕ → ℕ → Volume → Type 0
Origin dev mem entry_size i end v =
    (j : ℕ) × (i ≤ j)
    × (j < end)
    × (is_basic (gpt_entry mem entry_size j) ≡ true)
    × (probe dev (start_lba (gpt_entry mem entry_size j)) ≡ some v)

abbrev Origins : Device → (ℕ → ℕ) → ℕ → ℕ → ℕ → Option (List Volume) → Type 0
Origins dev mem entry_size i end none = Unit
Origins dev mem entry_size i end (some vs) = All (Origin dev mem entry_size i end) vs

Origins-earlier :
    (dev : Device) (mem : ℕ → ℕ) (entry_size i end : ℕ) (vs : Option (List Volume))
    → Origins dev mem entry_size (suc i) end vs
    → Origins dev mem entry_size i end vs
Origins-earlier dev mem entry_size i end none h = tt
Origins-earlier dev mem entry_size i end (some vs) h =
    All-mono vs (λ v o. (o.0, omega (arith, o.1), o.2, o.3, o.4)) h

Origins-and_volume :
    (dev : Device) (mem : ℕ → ℕ) (entry_size i end : ℕ) (v : Option Volume)
    (vs : Option (List Volume))
    → i < end
    → is_basic (gpt_entry mem entry_size i) ≡ true
    → probe dev (start_lba (gpt_entry mem entry_size i)) ≡ v
    → Origins dev mem entry_size i end vs
    → Origins dev mem entry_size i end (and_volume v vs)
Origins-and_volume dev mem entry_size i end none vs lt b e h = tt
Origins-and_volume dev mem entry_size i end (some v) none lt b e h = tt
Origins-and_volume dev mem entry_size i end (some v) (some vs) lt b e h =
    ((i, omega arith, lt, b, e), h)

read_entries-Origins :
    (dev : Device) (mem : ℕ → ℕ) (entry_size i n end : ℕ)
    → i + n ≤ end
    → Origins dev mem entry_size i end (read_entries dev mem entry_size i n)
unfolding read_entries
read_entries-Origins dev mem entry_size i zero end h = tt
read_entries-Origins dev mem entry_size i (suc n) end h =
    let entry = gpt_entry mem entry_size i in
    let rest = read_entries dev mem entry_size (suc i) n in
    let earlier =
      Origins-earlier dev mem entry_size i end rest
        (read_entries-Origins dev mem entry_size (suc i) n end (omega (arith, h))) in
    elim (Bool-cases (is_basic entry)) [
      | inl b ↦ if-true (Origins dev mem entry_size i end) rest b (
          Origins-and_volume dev mem entry_size i end (probe dev (start_lba entry)) rest
            (omega (arith, h)) b refl earlier)
      | inr f ↦
          if-false (Origins dev mem entry_size i end)
            (and_volume (probe dev (start_lba entry)) rest) f earlier
    ]

-- When the loop over n entries of a partition table gives a list of volumes, each of them is what
-- probing found at the first sector of an entry among the n that has basic data.
pub read_entries-Origin :
    (dev : Device) (mem : ℕ → ℕ) (entry_size n : ℕ) (vs : List Volume)
    → read_entries dev mem entry_size 0 n ≡ some vs
    → All (Origin dev mem entry_size 0 n) vs
read_entries-Origin dev mem entry_size n vs e =
    subst (Origins dev mem entry_size 0 n) e
      (read_entries-Origins dev mem entry_size 0 n n (omega arith))
