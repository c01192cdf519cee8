-- ===== src/Disk/Devices.antt =====
-- The list of block devices, src/fs/blockdev.c.
use hz_os.Base.{
  ℕ, zero, suc, ◌≡◌, ◌≢◌, ◌↔◌, true, Option, none, some, List, [], ◌∷◌, arith, refl, ap, ◌∙◌,
  Bool-cases, inl, inr, if-true,
}
use hz_os.Base.Int.{ℤ, pos, negsuc}
use hz_os.Strings.{strcmp}
use hz_os.Strings.Compare.{IsText, strcmp_iff}
use hz_os.Disk.{Device, blockdev_register, blockdev_find, is_zero}

-- The device that is found, or the other one.
abbrev pub or_else : Option Device → Option Device → Option Device
or_else none other = other
or_else (some d) other = some d

find-append :
    (devs : List Device) (dev : Device) (name : List ℕ)
    → blockdev_find (blockdev_register devs dev) name
      ≡ or_else (blockdev_find devs name) (blockdev_find (dev ∷ []) name)
unfolding blockdev_find blockdev_register
find-append [] dev name = refl
find-append (d ∷ devs) dev name = elim (Bool-cases (is_zero (strcmp d.name name))) [
  | inl e ↦ rw e refl
  | inr e ↦ rw e (find-append devs dev name)
]

zero_iff : (z : ℤ) → (is_zero z ≡ true) ↔ (z ≡ pos 0)
zero_iff (pos zero) = (λ e. refl, λ e. refl)
zero_iff (pos (suc n)) = (λ e. absurd (cc), λ e. absurd (ground (arith, e)))
zero_iff (negsuc n) = (λ e. absurd (cc), λ e. absurd (cc))

found_alone :
    (dev : Device) (name : List ℕ)
    → IsText dev.name
    → IsText name
    → (dev.name ≡ name → blockdev_find (dev ∷ []) name ≡ some dev)
      × (dev.name ≢ name → blockdev_find (dev ∷ []) name ≡ none)
unfolding blockdev_find
found_alone dev name h1 h2 =
    let (there, back) = strcmp_iff dev.name name h1 h2 in
    let (to, from) = zero_iff (strcmp dev.name name) in
    (
      λ e. if-true (λ o. o ≡ some dev) none (from (back e)) refl,
      λ ne. elim (Bool-cases (is_zero (strcmp dev.name name))) [
        | inl t ↦ absurd (ne (there (to t)))
        | inr f ↦ rw f refl
      ],
    )

-- After a device is registered, blockdev_find finds by a name what it found before; where it found
-- nothing, it finds the new device by its own name, and nothing by another.
pub find-register :
    (devs : List Device) (dev : Device) (name : List ℕ)
    → IsText dev.name
    → IsText name
    → (dev.name ≡ name
        → blockdev_find (blockdev_register devs dev) name
          ≡ or_else (blockdev_find devs name) (some dev))
      × (dev.name ≢ name
          → blockdev_find (blockdev_register devs dev) name
            ≡ or_else (blockdev_find devs name) none)
find-register devs dev name h1 h2 =
    let (same, other) = found_alone dev name h1 h2 in
    (
      λ e. find-append devs dev name ∙ ap (λ o. or_else (blockdev_find devs name) o) (same e),
      λ ne. find-append devs dev name ∙ ap (λ o. or_else (blockdev_find devs name) o) (other ne),
    )
