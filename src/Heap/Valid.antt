-- ===== src/Heap/Valid.antt =====
-- The invariant of the heap: every block lies between the start and the bump pointer, and no two
-- share a byte.
use hz_os.Base.{
  ℕ, ◌+◌, ◌%◌, ◌^◌, ◌≤◌, ◌<◌, ◌≡◌, ◌⊎◌, true, false, some, List, [], ◌∷◌, ◌++◌, arith, ◌==◌, leb,
  subst, All, All-append, All-mono, Bool-cases, inl, inr, refl,
}
use hz_os.Base.Words.{add64}
use hz_os.Heap.{Block, header, Heap, fits, find_free_block, carve, replace}

-- The first address behind a block.
abbrev pub end_of : Block → ℕ
end_of b = b.addr + header + b.size

abbrev pub Disjoint : Block → Block → Type 0
Disjoint b c = (end_of b ≤ c.addr) ⊎ (end_of c ≤ b.addr)

abbrev pub Apart : Block → List Block → Type 0
Apart b = All (Disjoint b)

abbrev pub AllApart : List Block → Type 0
AllApart [] = Unit
AllApart (b ∷ bs) = Apart b bs × AllApart bs

pub record InRange (lo hi : ℕ) (b : Block) : Type 0 where
  pub above : lo ≤ b.addr
  pub below : end_of b ≤ hi
  pub whole : b.size % 4 ≡ 0

pub record IsValid (h : Heap) : Type 0 where
  pub started : h.heap_start ≤ h.placement_addr
  pub small : h.placement_addr < 2 ^ 64
  pub in_range : All (InRange h.heap_start h.placement_addr) h.free_list
  pub apart : AllApart h.free_list

-- `c` lies inside `b`.
pub record Within (b c : Block) : Type 0 where
  pub from : b.addr ≤ c.addr
  pub to : end_of c ≤ end_of b
  pub whole : b.size % 4 ≡ 0 → c.size % 4 ≡ 0

pub Disjoint-Within : (a b c : Block) → Disjoint a b → Within b c → Disjoint a c
Disjoint-Within a b c d w = ground arith

pub Disjoint-symm : (a b : Block) → Disjoint a b → Disjoint b a
Disjoint-symm a b (inl h) = inr h
Disjoint-symm a b (inr h) = inl h

pub InRange-Within : {lo hi : ℕ} (b c : Block) → InRange lo hi b → Within b c → InRange lo hi c
InRange-Within b c r w = ground arith

pub Apart-Within : (b c : Block) (bs : List Block) → Within b c → Apart b bs → Apart c bs
Apart-Within b c bs w =
    All-mono bs (λ d h. Disjoint-symm d c (Disjoint-Within d b c (Disjoint-symm b d h) w))

pub Apart-All : (a b : Block) (cs : List Block) → Disjoint a b → All (Within b) cs → Apart a cs
Apart-All a b cs d = All-mono cs (λ c w. Disjoint-Within a b c d w)

pub AllApart-append :
    (xs ys : List Block)
    → AllApart xs
    → AllApart ys
    → All (λ x. Apart x ys) xs
    → AllApart (xs ++ ys)
AllApart-append [] ys hx hy h = hy
AllApart-append (x ∷ xs) ys hx hy h =
    (All-append (Disjoint x) xs ys hx.0 h.0, AllApart-append xs ys hx.1 hy h.1)

-- `b` is replaced by parts of it that are apart.
pub record Splits (b : Block) (new : List Block) : Type 0 where
  pub parts : All (Within b) new
  pub apart : AllApart new

-- The first block of the list at address `a`.
pub data At (a : ℕ) (b : Block) : List Block → Type 0 where
  here : {bs : List Block} → b.addr ≡ a → At a b (b ∷ bs)
  there : {c : Block} {bs : List Block} → (c.addr == a) ≡ false → At a b bs → At a b (c ∷ bs)

pub All-At {κ} :
    (P : Block → Type κ) {a : ℕ} {b : Block} {bs : List Block} → At a b bs → All P bs → P b
All-At P (here e) h = h.0
All-At P (there e t) h = All-At P t h.1

module _ (new : List Block) where
  pub All-replace {κ} :
      (P : Block → Type κ) {a : ℕ} {b : Block} {bs : List Block}
      → At a b bs
      → All P bs
      → All P new
      → All P (replace bs a new)
  unfolding replace
  All-replace P {a} {b} (here {bs} e) h hn =
      let e' : (b.addr == a) ≡ true = ground arith in rw e' (All-append P new bs hn h.1)
  All-replace P (there e t) h hn = rw e (h.0, All-replace P t h.1 hn)

  pub AllApart-replace :
      {a : ℕ} {b : Block} {bs : List Block}
      → At a b bs
      → AllApart bs
      → Splits b new
      → AllApart (replace bs a new)
  unfolding replace
  AllApart-replace {a} {b} (here {bs} e) h s =
      let e' : (b.addr == a) ≡ true = ground arith in
      rw e' (
        AllApart-append new bs s.apart h.1
          (All-mono new (λ c w. Apart-Within b c bs w h.0) s.parts))
  AllApart-replace {b} (there {c} e t) h s = rw e (
    All-replace (Disjoint c) t h.0 (Apart-All c b new (All-At (Disjoint c) t h.0) s.parts),
    AllApart-replace t h.1 s,
  )

-- The search returns a free block that is large enough, at its place in the list.
pub record Found (size : ℕ) (bs : List Block) (b : Block) : Type 0 where
  pub place : At b.addr b bs
  pub is_free : b.free ≡ true
  pub large : size ≤ b.size

pub find_free_block-Found :
    (size : ℕ) (bs : List Block) {b : Block}
    → AllApart bs
    → find_free_block bs size ≡ some b
    → Found size bs b
unfolding find_free_block
find_free_block-Found size [] h e = cc
find_free_block-Found size (c ∷ cs) {b} h e = elim (Bool-cases (fits size c)) [
  | inl hit ↦
      let same : c ≡ b = ground arith in
      subst (Found size (c ∷ cs)) same
        (record { place = here refl; is_free = ground arith; large = ground arith })
  | inr miss ↦
      let f = find_free_block-Found size cs h.1 (rw miss at e) in
      record {
        place = there (ground (arith, All-At (Disjoint c) f.place h.0)) f.place;
        is_free = f.is_free;
        large = f.large;
      }
]

-- The parts of a block that is carved up are apart and within it.
pub carve-Splits :
    (size : ℕ) (b : Block)
    → size ≤ b.size
    → size % 4 ≡ 0
    → 4 ≤ b.addr
    → end_of b < 2 ^ 64
    → Splits b (carve size b)
unfolding carve
carve-Splits size b fit whole low high =
    elim (Bool-cases (leb (add64 (add64 size header) 4) b.size)) [
      | inl big ↦ rw big (record { parts = ground arith; apart = ground arith })
      | inr tight ↦ rw tight (record { parts = ground arith; apart = ground arith })
    ]

-- `b` is one of the blocks.
abbrev pub Holds : Block → List Block → Type 0
Holds b [] = ⊥
Holds b (c ∷ cs) = (c ≡ b) ⊎ Holds b cs

pub All-Holds {κ} : (P : Block → Type κ) (b : Block) (bs : List Block) → Holds b bs → All P bs → P b
All-Holds P b [] t h = elim t [ ]
All-Holds P b (c ∷ cs) (inl e) h = subst P e h.0
All-Holds P b (c ∷ cs) (inr t) h = All-Holds P b cs t h.1

Holds-append_left : (b : Block) (xs ys : List Block) → Holds b xs → Holds b (xs ++ ys)
Holds-append_left b [] ys h = elim h [ ]
Holds-append_left b (x ∷ xs) ys (inl e) = inl e
Holds-append_left b (x ∷ xs) ys (inr t) = inr (Holds-append_left b xs ys t)

Holds-append_right : (b : Block) (xs ys : List Block) → Holds b ys → Holds b (xs ++ ys)
Holds-append_right b [] ys h = h
Holds-append_right b (x ∷ xs) ys h = inr (Holds-append_right b xs ys h)

module _ (c : Block) (new : List Block) where
  pub Holds-replace_new :
      {a : ℕ} {b : Block} {bs : List Block} → At a b bs → Holds c new → Holds c (replace bs a new)
  unfolding replace
  Holds-replace_new {a} {b} (here {bs} e) h =
      let e' : (b.addr == a) ≡ true = ground arith in rw e' (Holds-append_left c new bs h)
  Holds-replace_new (there e t) h = rw e (inr (Holds-replace_new t h))

  -- A block that is not the replaced one stays.
  pub Holds-replace_old :
      {a : ℕ} {b : Block} {bs : List Block}
      → At a b bs
      → ¬ (b ≡ c)
      → Holds c bs
      → Holds c (replace bs a new)
  unfolding replace
  Holds-replace_old {a} {b} (here {bs} e) ne (inl e') = absurd (ne e')
  Holds-replace_old {a} {b} (here {bs} e) ne (inr t) =
      let e' : (b.addr == a) ≡ true = ground arith in rw e' (Holds-append_right c new bs t)
  Holds-replace_old (there e t) ne (inl e') = rw e (inl e')
  Holds-replace_old (there e t) ne (inr u) = rw e (inr (Holds-replace_old t ne u))

-- Two different blocks of the list are apart.
pub Disjoint-At :
    {a : ℕ} {b c : Block} {bs : List Block}
    → At a b bs
    → ¬ (b ≡ c)
    → Holds c bs
    → AllApart bs
    → Disjoint c b
Disjoint-At {b} {c} (here {bs} e) ne (inl e') h = absurd (ne e')
Disjoint-At {b} {c} (here {bs} e) ne (inr t) h =
    Disjoint-symm b c (All-Holds (Disjoint b) c bs t h.0)
Disjoint-At {b} {c} (there {c = d} e t) ne (inl e') h =
    subst (λ x. Disjoint x b) e' (All-At (Disjoint d) t h.0)
Disjoint-At (there e t) ne (inr u) h = Disjoint-At t ne u h.1
