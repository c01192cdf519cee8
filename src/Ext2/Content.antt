-- ===== src/Ext2/Content.antt =====
-- The bytes that ext2_read_file of src/fs/ext2.c gives.
use hz_os.Base.{
  ℕ, suc, ◌+◌, ◌-◌, ◌*◌, ◌≤◌, ◌<◌, ◌≡◌, true, false, ◌||◌, List, [], ◌∷◌, ◌++◌, length, take, min,
  max, subst, sym, ltb, leb, ◌==◌, inl, inr, arith, length-append, length-take, Bool-cases,
}
use hz_os.Ext2.{
  Ext2, Inode, Outcome, overrun, failed, ok, read_into, buf_size, read_inode, is_directory,
  read_blocks, ext2_read_file,
}
use hz_os.Ext2.Scan.{Outcome-cases}

-- What is read has at most `size` bytes, and no more than fit into the direct blocks left.
abbrev Bounded : Ext2 → ℕ → ℕ → ℕ → Outcome (List ℕ) → Type 0
Bounded fs size i n overrun = Unit
Bounded fs size i n failed = Unit
Bounded fs size i n (ok out) =
    (length out ≤ max n size) × (length out ≤ n + (12 - i) * fs.block_size)

Bounded-same :
    (fs : Ext2) (size i n : ℕ) (o : Outcome (List ℕ))
    → ltb i 12 ≡ false
    → Bounded fs size (suc i) n o
    → Bounded fs size i n o
Bounded-same fs size i n overrun h b = tt
Bounded-same fs size i n failed h b = tt
Bounded-same fs size i n (ok out) h b =
    let none_left : 12 - suc i ≡ 12 - i = ground (arith, h) in
    (b.0, subst (λ k. length out ≤ n + k * fs.block_size) none_left b.1)

one_more : (k m : ℕ) → suc k * m ≡ k * m + m
one_more k m = omega arith

Bounded-block :
    (fs : Ext2) (size i n m : ℕ) (o : Outcome (List ℕ))
    → ltb i 12 ≡ true
    → n < size
    → m ≤ min (size - n) fs.block_size
    → Bounded fs size (suc i) (n + m) o
    → Bounded fs size i n o
Bounded-block fs size i n m overrun h lt le b = tt
Bounded-block fs size i n m failed h lt le b = tt
Bounded-block fs size i n m (ok out) h lt le b =
    let left : 12 - i ≡ suc (12 - suc i) = ground (arith, h) in
    (
      omega (arith, lt, le, b.0),
      subst (λ k. length out ≤ n + k * fs.block_size) (sym left)
          (omega (arith, le, b.1, one_more (12 - suc i) fs.block_size)),
    )

read_blocks-Bounded :
    (fs : Ext2) (size i : ℕ) (blocks out : List ℕ)
    → Bounded fs size i (length out) (read_blocks fs size i blocks out)
unfolding read_blocks
read_blocks-Bounded fs size i [] out = (omega arith, omega arith)
read_blocks-Bounded fs size i (b ∷ bs) out = elim (Bool-cases (leb size (length out) || b == 0)) [
  | inl stop ↦ rw (stop, read_blocks) (omega arith, omega arith)
  | inr more ↦ elim (Bool-cases (ltb i 12)) [
    | inr indirect ↦
        rw (more, indirect, read_blocks)
          (Bounded-same fs size i (length out) (read_blocks fs size (suc i) bs out) indirect
            (read_blocks-Bounded fs size (suc i) bs out))
    | inl direct ↦ elim (Outcome-cases (read_into buf_size fs b)) [
      | inl e ↦ rw (more, direct, e, read_blocks) tt
      | inr (inl e) ↦ rw (more, direct, e, read_blocks) tt
      | inr (inr (bytes, e)) ↦
          let piece = take (min (size - length out) fs.block_size) bytes in
          let room : length out < size = ground (arith, more) in
          let short : length piece ≤ min (size - length out) fs.block_size =
            omega (arith, length-take (min (size - length out) fs.block_size) bytes) in
          let rest = read_blocks-Bounded fs size (suc i) bs (out ++ piece) in
          rw (more, direct, e, read_blocks)
            (Bounded-block fs size i (length out) (length piece)
              (read_blocks fs size (suc i) bs (out ++ piece)) direct room short
              (subst
                (λ n. Bounded fs size (suc i) n (read_blocks fs size (suc i) bs (out ++ piece)))
                (length-append out piece) rest))
    ]
  ]
]

-- When ext2_read_file succeeds, it gives at most as many bytes as were asked for and as the file has,
-- and never more than twelve blocks: the rest of a larger file is left out without an error.
pub read_file-bounded :
    (gd_room : ℕ) (fs : Ext2) (inode_num size : ℕ) (inode : Inode) (bytes : List ℕ)
    → read_inode gd_room fs inode_num ≡ ok inode
    → ext2_read_file gd_room fs inode_num size ≡ ok bytes
    → (length bytes ≤ size) × (length bytes ≤ inode.size) × (length bytes ≤ 12 * fs.block_size)
unfolding ext2_read_file
read_file-bounded gd_room fs inode_num size inode bytes e r =
    elim (Bool-cases (is_directory inode)) [
      | inl d ↦ absurd (ground (arith, rw (e, ext2_read_file, d) at r))
      | inr f ↦
          let b =
            subst (λ o. Bounded fs (min size inode.size) 0 0 o) (rw (e, ext2_read_file, f) at r)
              (read_blocks-Bounded fs (min size inode.size) 0 inode.block []) in
          (omega (arith, b.0), omega (arith, b.0), omega (arith, b.1))
    ]
