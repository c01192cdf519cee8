-- ===== src/Ext2/Scan.antt =====
-- The loops of src/fs/ext2.c come to an end: the search of a directory, the walk along a path.
use hz_os.Base.{
  ℕ, zero, suc, ◌+◌, ◌≤◌, ◌≡◌, ◌≢◌, ◌⊎◌, Bool, true, false, ◌&&◌, ◌||◌, not, some, List, [], ◌∷◌,
  length, if◌then◌else◌, leb, ◌==◌, Bool-cases, inl, inr, arith, refl, if-both, if-true,
}
use hz_os.Ext2.{Ext2, Outcome, overrun, failed, ok, byte, le16, le32}
use hz_os.Ext2.Directory.{
  Search, unfinished, absent, found, search, is_last, matches, component, skip_slash, lookup,
  find_from, ext2_find_inode,
}

pub Outcome-cases :
    {A : Type 0} (o : Outcome A) → (o ≡ overrun) ⊎ ((o ≡ failed) ⊎ ((a : A) × (o ≡ ok a)))
Outcome-cases overrun = inl refl
Outcome-cases failed = inr (inl refl)
Outcome-cases (ok a) = inr (inr (a, refl))

abbrev Finished : Search → Type 0
Finished s = s ≢ unfinished

has_length :
    (fs : Ext2) (buf : List ℕ) (offset : ℕ)
    → is_last fs buf offset ≡ false
    → 1 ≤ le16 fs buf (offset + 4)
has_length fs buf offset h = ground (arith, h)

or_right : (a b : Bool) → b ≡ true → (a || b) ≡ true
or_right a b h = ground (arith, h)

-- With as much fuel as there are bytes left in the block, whatever the block holds, the search of a
-- directory ends with an entry or without one.
pub search-ends :
    (fs : Ext2) (buf name : List ℕ) (fuel offset : ℕ)
    → fs.block_size ≤ offset + fuel
    → search fs buf name fuel offset ≢ unfinished
unfolding search
search-ends fs buf name zero offset h = λ e. ground (arith, h, e)
search-ends fs buf name (suc fuel) offset h =
    let ends = leb fs.block_size offset || is_last fs buf offset in
    let same = byte fs buf (offset + 6) == length name && matches fs buf (offset + 8) name in
    elim (Bool-cases (is_last fs buf offset)) [
      | inl last ↦
          if-true Finished {b = ends}
            (if same
              then found (le32 fs buf offset)
              else search fs buf name fuel (offset + le16 fs buf (offset + 4)))
            (or_right (leb fs.block_size offset) (is_last fs buf offset) last)
            (λ (e : absent ≡ unfinished). absurd (cc))
      | inr more ↦
          if-both Finished ends (λ e. absurd (cc))
            (if-both Finished same (λ e. absurd (cc))
              (search-ends fs buf name fuel (offset + le16 fs buf (offset + 4))
                (omega (arith, h, has_length fs buf offset more))))
    ]

length-component : (room : ℕ) (cs : List ℕ) → length (component room cs).1 ≤ length cs
unfolding component
length-component room [] = omega arith
length-component zero (c ∷ cs) = omega arith
length-component (suc room) (c ∷ cs) =
    if-both (λ (p : List ℕ × List ℕ). length p.1 ≤ length (c ∷ cs)) (c == b'/') (omega arith)
      (omega (arith, length-component room cs))

length-skip_slash : (cs : List ℕ) → length (skip_slash cs) ≤ length cs
length-skip_slash [] = omega arith
length-skip_slash (c ∷ cs) =
    if-both (λ (p : List ℕ). length p ≤ length (c ∷ cs)) (c == b'/') (omega arith) (omega arith)

-- Each round of the loop takes a character at least.
shorter :
    (room : ℕ) (c : ℕ) (cs : List ℕ)
    → length (skip_slash (component (suc room) (c ∷ cs)).1) ≤ length cs
unfolding component
shorter room c cs = elim (Bool-cases (c == b'/')) [
  | inl e ↦ rw (e, component, e) (omega arith)
  | inr e ↦
      rw (e, component)
        (omega (arith, length-skip_slash (component room cs).1, length-component room cs))
]

find_from-ends :
    (fuel gd_room : ℕ) (fs : Ext2) (path : List ℕ) (inode : ℕ)
    → length path ≤ fuel
    → (o : Outcome ℕ) × (find_from fuel gd_room fs path inode ≡ some o)
unfolding find_from
find_from-ends fuel gd_room fs [] inode h = (ok inode, refl)
find_from-ends zero gd_room fs (c ∷ cs) inode h = absurd (omega (arith, h))
find_from-ends (suc fuel) gd_room fs (c ∷ cs) inode h =
    elim (Outcome-cases (lookup gd_room fs inode (component 255 (c ∷ cs)).0)) [
      | inl e ↦ (overrun, rw (e, find_from) refl)
      | inr (inl e) ↦ (failed, rw (e, find_from) refl)
      | inr (inr (n, e)) ↦
          rw (e, find_from)
            (find_from-ends fuel gd_room fs (skip_slash (component 255 (c ∷ cs)).1) n
              (omega (arith, h, shorter 254 c cs)))
    ]

-- Whatever the volume holds, ext2_find_inode comes to an end for every path: the fuel of
-- the model, one round for each character behind the first, is never used up.
pub find_inode-ends :
    (gd_room : ℕ) (fs : Ext2) (path : List ℕ)
    → (o : Outcome ℕ) × (ext2_find_inode gd_room fs path ≡ some o)
unfolding ext2_find_inode
find_inode-ends gd_room fs [] = (failed, refl)
find_inode-ends gd_room fs (c ∷ path) =
    if-both (λ r. (o : Outcome ℕ) × (r ≡ some o)) (not (c == b'/')) (failed, refl)
      (if-both (λ r. (o : Outcome ℕ) × (r ≡ some o)) (fs.block_size == 0) (failed, refl)
        (find_from-ends (length path) gd_room fs path 2 (omega arith)))
