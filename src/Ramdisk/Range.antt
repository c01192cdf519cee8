-- ===== src/Ramdisk/Range.antt =====
-- The range check of ramdisk_read.
use hz_os.Base.{
  ℕ, zero, suc, ◌+◌, ◌-◌, ◌^◌, ◌≤◌, ◌<◌, ◌≡◌, ◌↔◌, false, none, some, List, length, ltb, arith,
  refl, ap, ◌∙◌, Bool-cases, inl, inr, get_elem?,
}
use hz_os.Base.Words.{add32}
use hz_os.Ramdisk.{Ramdisk, ramdisk_read, copy}

pub length-copy : (mem : ℕ → ℕ) (offset i n : ℕ) → length (copy mem offset i n) ≡ n
unfolding copy
length-copy mem offset i zero = refl
length-copy mem offset i (suc n) = ap suc (length-copy mem offset (suc i) n)

copy-get :
    (mem : ℕ → ℕ) (offset i n j : ℕ)
    → j < n
    → get_elem? (copy mem offset i n) j ≡ some (mem (add32 offset (i + j)))
unfolding copy
copy-get mem offset i zero j h = absurd (omega (arith, h))
copy-get mem offset i (suc n) zero h =
    ap (λ k. some (mem (add32 offset k))) (let e : i ≡ i + 0 = omega arith in e)
copy-get mem offset i (suc n) (suc j) h =
    copy-get mem offset (suc i) n j (omega (arith, h))
    ∙ ap (λ k. some (mem (add32 offset k))) (let e : suc i + j ≡ i + suc j = omega arith in e)

in_range :
    (mem : ℕ → ℕ) (offset len j : ℕ)
    → offset + len < 2 ^ 32
    → j < len
    → get_elem? (copy mem offset 0 len) j ≡ some (mem (offset + j))
in_range mem offset len j room lt =
    copy-get mem offset 0 len j lt
    ∙ ap (λ k. some (mem k))
        (let e : add32 offset (0 + j) ≡ offset + j = omega (arith, room, lt) in e)

-- While offset + len does not overflow 32 bits, ramdisk_read fails exactly for ranges that leave the
-- disk, and otherwise gives len bytes, of which the one at j is the disk's at offset + j.
pub ramdisk_read-in_range :
    (rd : Ramdisk) (mem : ℕ → ℕ) (offset len : ℕ)
    → rd.base ≡ some mem
    → offset + len < 2 ^ 32
    → ((ramdisk_read rd offset len ≡ none) ↔ (rd.size < offset + len))
      × (offset + len ≤ rd.size
          → (bytes : List ℕ) × (ramdisk_read rd offset len ≡ some bytes)
            × (length bytes ≡ len)
            × ((j : ℕ) → j < len → get_elem? bytes j ≡ some (mem (offset + j))))
unfolding ramdisk_read
ramdisk_read-in_range rd mem offset len e room =
    let sum : add32 offset len ≡ offset + len = omega (arith, room) in
    rw (e, ramdisk_read, sum)
      (elim (Bool-cases (ltb rd.size (offset + len))) [
        | inl out ↦
            rw out
              ((λ x. ground (arith, out), λ x. refl), λ fits. absurd (ground (arith, out, fits)))
        | inr fits ↦ rw fits (
          (λ x. absurd (cc), λ x. absurd (ground (arith, fits, x))),
          λ x. (
            copy mem offset 0 len,
            refl,
            length-copy mem offset 0 len,
            λ j lt. in_range mem offset len j room lt,
          ),
        )
      ])

-- A range whose end overflows to 0 is read whatever the size of the disk.
pub ramdisk_read-wraps :
    (rd : Ramdisk) (mem : ℕ → ℕ) (len : ℕ)
    → rd.base ≡ some mem
    → 1 ≤ len
    → len < 2 ^ 32
    → ramdisk_read rd (2 ^ 32 - len) len ≡ some (copy mem (2 ^ 32 - len) 0 len)
unfolding ramdisk_read
ramdisk_read-wraps rd mem len e h1 h2 =
    let inside : ltb rd.size (add32 (2 ^ 32 - len) len) ≡ false = ground (arith, h1, h2) in
    rw (e, ramdisk_read, inside) refl
