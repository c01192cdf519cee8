-- ===== src/Heap/Release.antt =====
-- kfree of src/lib/memory.c, and the reuse of what it gives back.
use hz_os.Base.{
  ℕ, ◌+◌, ◌^◌, ◌≤◌, ◌<◌, ◌≡◌, ◌≢◌, ◌↔◌, Bool, true, false, some, List, [], ◌∷◌, arith, ◌==◌, All,
  Bool-cases, inl, inr, refl, ap,
}
use hz_os.Base.Words.{sub64}
use hz_os.Heap.{
  Block, block, header, Heap, round4, fits, find_free_block, kmalloc, kmalloc_rounded, kfree,
  set_free, has_header,
}
use hz_os.Heap.Valid.{IsValid, InRange, Disjoint, Apart, AllApart, Holds, All-Holds}

All-set_free {κ} :
    (P : Block → Type κ) (a : ℕ) (bs : List Block)
    → ((b : Block) → P b → P (record b { free = true }))
    → All P bs
    → All P (set_free bs a)
unfolding set_free
All-set_free P a [] f h = h
All-set_free P a (b ∷ bs) f h = elim (Bool-cases (b.addr == a)) [
  | inl e ↦ rw e (f b h.0, h.1)
  | inr e ↦ rw e (h.0, All-set_free P a bs f h.1)
]

AllApart-set_free : (a : ℕ) (bs : List Block) → AllApart bs → AllApart (set_free bs a)
unfolding set_free
AllApart-set_free a [] h = h
AllApart-set_free a (b ∷ bs) h = elim (Bool-cases (b.addr == a)) [
  | inl e ↦ rw e (h.0, h.1)
  | inr e ↦ rw e (All-set_free (Disjoint b) a bs (λ c d. d) h.0, AllApart-set_free a bs h.1)
]

-- The list after `kfree` of the block at `a`: that block is free, all others are as they were.
pub record Released (a n : ℕ) (old new : List Block) : Type 0 where
  pub freed : Holds (block a n true) new
  pub others : (b : Block) → b.addr ≢ a → Holds b old ↔ Holds b new

Holds-has_header :
    (a n : ℕ) (f : Bool) (bs : List Block) → Holds (block a n f) bs → has_header bs a ≡ true
unfolding has_header
Holds-has_header a n f [] h = elim h [ ]
Holds-has_header a n f (b ∷ bs) (inl e) =
    let e' : (b.addr == a) ≡ true = ground (arith, ap (λ (d : Block). d.addr) e) in rw e'
Holds-has_header a n f (b ∷ bs) (inr t) = ground (arith, Holds-has_header a n f bs t)

-- The address of a block is that of no block in front of it.
addr-ne :
    (a n : ℕ) (f : Bool) (b : Block) (bs : List Block)
    → Apart b bs
    → Holds (block a n f) bs
    → (b.addr == a) ≡ false
addr-ne a n f b bs h t = ground (arith, All-Holds (Disjoint b) (block a n f) bs t h)

set_free-freed :
    (a n : ℕ) (f : Bool) (bs : List Block)
    → AllApart bs
    → Holds (block a n f) bs
    → Holds (block a n true) (set_free bs a)
unfolding set_free
set_free-freed a n f [] h t = elim t [ ]
set_free-freed a n f (b ∷ bs) h (inl e) =
    let e' : (b.addr == a) ≡ true = ground (arith, ap (λ (d : Block). d.addr) e) in
    rw e' (inl (ap (λ (d : Block). record d { free = true }) e))
set_free-freed a n f (b ∷ bs) h (inr t) =
    rw (addr-ne a n f b bs h.0 t) (inr (set_free-freed a n f bs h.1 t))

set_free-others :
    (a : ℕ) (b : Block) (bs : List Block) → b.addr ≢ a → Holds b bs ↔ Holds b (set_free bs a)
unfolding set_free
set_free-others a b [] ne = (λ t. t, λ t. t)
set_free-others a b (c ∷ bs) ne = elim (Bool-cases (c.addr == a)) [
  | inl e ↦ rw e (
    elim [ inl e' ↦ absurd (ground (arith, ap (λ (d : Block). d.addr) e')) | inr t ↦ inr t ],
    elim [ inl e' ↦ absurd (ground (arith, ap (λ (d : Block). d.addr) e')) | inr t ↦ inr t ],
  )
  | inr e ↦ rw e (
    elim [ inl e' ↦ inl e' | inr t ↦ inr ((set_free-others a b bs ne).0 t) ],
    elim [ inl e' ↦ inl e' | inr t ↦ inr ((set_free-others a b bs ne).1 t) ],
  )
]

find_free_block-some :
    (size : ℕ) (b : Block) (bs : List Block)
    → Holds b bs
    → fits size b ≡ true
    → (c : Block) × (find_free_block bs size ≡ some c)
unfolding find_free_block
find_free_block-some size b [] t fit = elim t [ ]
find_free_block-some size b (c ∷ bs) t fit = elim (Bool-cases (fits size c)) [
  | inl e ↦ rw e (c, refl)
  | inr e ↦ rw e (elim t [
    | inl same ↦ absurd (ground (arith, ap (fits size) same))
    | inr u ↦ find_free_block-some size b bs u fit
  ])
]

module _ (h : Heap) (v : IsValid h) (a n : ℕ) (f : Bool)
    (held : Holds (block a n f) h.free_list) where
  live-lt : a + header < 2 ^ 64
  live-lt =
      let r =
        All-Holds (InRange h.heap_start h.placement_addr) (block a n f) h.free_list held
          v.in_range in
      omega (arith, r.below, v.small)

  -- From a valid heap, kfree of the address behind the header of one of its blocks succeeds and
  -- leaves a valid heap with the same bump pointer, in which that block is free, of the same size,
  -- and the blocks at other addresses are exactly those that were there.
  pub kfree-Released :
      (g : Heap) × (kfree h (a + header) ≡ some g)
      × IsValid g
      × (g.placement_addr ≡ h.placement_addr)
      × Released a n h.free_list g.free_list
  unfolding kfree
  kfree-Released =
      let lt = live-lt in
      let e : sub64 (a + header) header ≡ a = omega arith in
      let e0 : (a + header == 0) ≡ false = ground arith in
      (
        record h { free_list = set_free h.free_list a },
        rw (e0, e, Holds-has_header a n f h.free_list held),
        record {
          started = v.started;
          small = v.small;
          in_range =
              All-set_free (InRange h.heap_start h.placement_addr) a h.free_list
                (λ b r. ground (arith, r.above, r.below, r.whole)) v.in_range;
          apart = AllApart-set_free a h.free_list v.apart;
        },
        refl,
        record {
          freed = set_free-freed a n f h.free_list v.apart held;
          others = λ b ne. set_free-others a b h.free_list ne;
        },
      )

-- Where a free block of at least the rounded size is in the list, kmalloc leaves
-- the bump pointer alone.
pub kmalloc-reuses :
    (h : Heap) (size : ℕ) (b : Block)
    → Holds b h.free_list
    → b.free ≡ true
    → round4 size ≤ b.size
    → (kmalloc h size).1.placement_addr ≡ h.placement_addr
unfolding kmalloc
kmalloc-reuses h size b t fr le =
    let (c, e) = find_free_block-some (round4 size) b h.free_list t (ground arith) in
    rw (e, kmalloc_rounded)
