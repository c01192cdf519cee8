-- ===== src/Heap/Alloc.antt =====
-- kmalloc of src/lib/memory.c keeps the heap valid, and what it hands out is large enough and
-- shares no byte with a block in use.
use hz_os.Base.{
  ℕ, ◌+◌, ◌%◌, ◌^◌, ◌≤◌, ◌<◌, ◌≡◌, false, List, arith, All-mono, Bool-cases, Option-cases, inl, inr,
  refl, leb, ap,
}
use hz_os.Base.Words.{add64}
use hz_os.Heap.{
  Block, block, header, Heap, round4, find_free_block, carve, replace, kmalloc, kmalloc_rounded,
  bump,
}
use hz_os.Heap.Valid.{
  IsValid, InRange, InRange-Within, Within, Disjoint, Disjoint-Within, Disjoint-At,
  AllApart-replace, All-replace, All-At, Found, find_free_block-Found, carve-Splits, Holds,
  All-Holds, Holds-replace_new, Holds-replace_old, Splits,
}

pub round4_lem :
    (size : ℕ)
    → size + 3 < 2 ^ 64
    → (size ≤ round4 size) × (round4 size ≤ size + 3) × (round4 size % 4 ≡ 0)
round4_lem size h = omega arith

-- What the allocation of a block from the list `old` leaves: in `new` a block in use at `a`, at
-- least as large as asked, and every block that was in use, unmoved and apart from it.
pub record Granted (size : ℕ) (old new : List Block) (a : ℕ) : Type 0 where
  pub given : ℕ
  pub held : Holds (block a given false) new
  pub large : size ≤ given
  pub kept :
      (b : Block) → Holds b old → b.free ≡ false → Holds b new × Disjoint b (block a given false)

module _ (h : Heap) (v : IsValid h) (off_null : 4 ≤ h.heap_start) (size : ℕ)
    (whole : size % 4 ≡ 0) where
  Found-Splits : {b : Block} → Found size h.free_list b → Splits b (carve size b)
  Found-Splits {b} f =
      let r = All-At (InRange h.heap_start h.placement_addr) f.place v.in_range in
      carve-Splits size b f.large whole (ground (arith, r.above)) (ground (arith, r.below, v.small))

  Found-IsValid :
      {b : Block}
      → Found size h.free_list b
      → IsValid (record h { free_list = replace h.free_list b.addr (carve size b) })
  Found-IsValid {b} f =
      let P = InRange h.heap_start h.placement_addr in
      let r = All-At P f.place v.in_range in
      let s = Found-Splits f in
      record {
        started = v.started;
        small = v.small;
        in_range =
            All-replace (carve size b) P f.place v.in_range
              (All-mono (carve size b) (λ c w. InRange-Within b c r w) s.parts);
        apart = AllApart-replace (carve size b) f.place v.apart s;
      }

  carve-Holds :
      (b : Block)
      → size ≤ b.size
      → (n : ℕ) × Holds (block b.addr n false) (carve size b) × (size ≤ n)
  unfolding carve
  carve-Holds b fit = elim (Bool-cases (leb (add64 (add64 size header) 4) b.size)) [
    | inl big ↦ rw big (size, inl refl, omega arith)
    | inr tight ↦ rw tight (b.size, inl refl, fit)
  ]

  Found-Granted :
      {b : Block}
      → Found size h.free_list b
      → Granted size h.free_list (replace h.free_list b.addr (carve size b)) b.addr
  Found-Granted {b} f =
      let (n, hd, large) = carve-Holds b f.large in
      let s = Found-Splits f in
      let part : Within b (block b.addr n false) =
        All-Holds (Within b) (block b.addr n false) (carve size b) hd s.parts in
      record {
        given = n;
        held = Holds-replace_new (block b.addr n false) (carve size b) f.place hd;
        large = large;
        kept = λ c hc used.
            let ne : ¬ (b ≡ c) = λ e. ground (arith, ap (λ (d : Block). d.free) e, f.is_free) in
            (
              Holds-replace_old c (carve size b) f.place ne hc,
              Disjoint-Within c b (block b.addr n false) (Disjoint-At f.place ne hc v.apart) part,
            );
      }

  module _ (room : h.placement_addr + header + size < 2 ^ 64) where
    bump-IsValid : IsValid (bump h size).1
    unfolding bump
    bump-IsValid = record {
      started = ground (arith, v.started);
      small = omega arith;
      in_range = (
        ground (arith, v.started),
        All-mono h.free_list (λ b r. ground (arith, r.above, r.below, r.whole)) v.in_range,
      );
      apart = (All-mono h.free_list (λ b r. inr r.below) v.in_range, v.apart);
    }

    bump-Granted : Granted size h.free_list (bump h size).1.free_list h.placement_addr
    unfolding bump
    bump-Granted = record {
      given = size;
      held = inl refl;
      large = omega arith;
      kept = λ b hb used. (
        inr hb,
        inl (All-Holds (InRange h.heap_start h.placement_addr) b h.free_list hb v.in_range).below,
      );
    }

    pub kmalloc_rounded-IsValid : IsValid (kmalloc_rounded h size).1
    unfolding kmalloc_rounded
    kmalloc_rounded-IsValid = elim (Option-cases (find_free_block h.free_list size)) [
      | inl e ↦ rw (e, kmalloc_rounded) bump-IsValid
      | inr (b, e) ↦
          rw (e, kmalloc_rounded) (Found-IsValid (find_free_block-Found size h.free_list v.apart e))
    ]

    pub kmalloc_rounded-Granted :
        (a : ℕ) × ((kmalloc_rounded h size).0 ≡ a + header)
        × Granted size h.free_list (kmalloc_rounded h size).1.free_list a
    unfolding kmalloc_rounded bump
    kmalloc_rounded-Granted = elim (Option-cases (find_free_block h.free_list size)) [
      | inl e ↦ rw (e, kmalloc_rounded) (h.placement_addr, refl, bump-Granted)
      | inr (b, e) ↦
          rw (e, kmalloc_rounded)
            (b.addr, refl, Found-Granted (find_free_block-Found size h.free_list v.apart e))
    ]

Granted-le : {n m a : ℕ} {old new : List Block} → n ≤ m → Granted m old new a → Granted n old new a
Granted-le le g = record {
  given = g.given;
  held = g.held;
  large = omega (arith, g.large);
  kept = g.kept;
}

module _ (h : Heap) (v : IsValid h) (off_null : 4 ≤ h.heap_start) (size : ℕ)
    (room : h.placement_addr + header + size + 3 < 2 ^ 64) where
  -- From a valid heap that starts at address 4 or above, a call of kmalloc for which the bump
  -- pointer has room below 2^64 leaves a valid heap.
  pub kmalloc-IsValid : IsValid (kmalloc h size).1
  unfolding kmalloc
  kmalloc-IsValid =
      let r = round4_lem size (omega arith) in
      kmalloc_rounded-IsValid h v off_null (round4 size) r.2 (omega (arith, r.1))

  -- From a valid heap that starts at address 4 or above, where the bump pointer has room below
  -- 2^64, kmalloc returns the address behind the header of a block that is in
  -- use and has at least the bytes asked for, and every block that was in use before is still in
  -- the list, unmoved, of the same size and in use, and shares no byte with the new one.
  pub kmalloc-Granted :
      (a : ℕ) × ((kmalloc h size).0 ≡ a + header)
      × Granted size h.free_list (kmalloc h size).1.free_list a
  unfolding kmalloc
  kmalloc-Granted =
      let r = round4_lem size (omega arith) in
      let (a, e, g) = kmalloc_rounded-Granted h v off_null (round4 size) r.2 (omega (arith, r.1)) in
      (a, e, Granted-le r.0 g)
