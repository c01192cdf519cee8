-- ===== src/Memory/Blocks.antt =====
-- What memset, memcpy and memcmp of src/lib/memory.c do to blocks of memory.
use hz_os.Base.{
  ℕ, zero, suc, ◌+◌, ◌%◌, ◌≤◌, ◌<◌, ◌≡◌, ◌≢◌, ◌↔◌, ◌⊎◌, inl, inr, ◌==◌, arith, refl, ap, sym, ◌∙◌,
  ==_refl, ==_of_ne, if-true, if-false, Bool-cases,
}
use hz_os.Base.Int.{pos}
use hz_os.Memory.{Memory, store, memset, memcpy, memcmp}

store_self : (mem : Memory) (p v : ℕ) → store mem p v p ≡ v
store_self mem p v = if-true (λ x. x ≡ v) (mem p) (==_refl p) refl

store-ne : (mem : Memory) (p v a : ℕ) → a ≢ p → store mem p v a ≡ mem a
store-ne mem p v a h = if-false (λ x. x ≡ mem a) v (==_of_ne a p h) refl

-- An address outside of a block.
abbrev pub Outside : ℕ → ℕ → ℕ → Type 0
Outside p n a = (a < p) ⊎ (p + n ≤ a)

pub memset-out : (mem : Memory) (p v n a : ℕ) → Outside p n a → memset mem p v n a ≡ mem a
unfolding memset
memset-out mem p v zero a h = refl
memset-out mem p v (suc n) a h =
    memset-out (store mem p (v % 256)) (suc p) v n a (ground (arith, h))
    ∙ store-ne mem p (v % 256) a (λ e. ground (arith, h, e))

pub memset-in : (mem : Memory) (p v n j : ℕ) → j < n → memset mem p v n (p + j) ≡ v % 256
unfolding memset
memset-in mem p v zero j h = absurd (omega (arith, h))
memset-in mem p v (suc n) zero h =
    memset-out (store mem p (v % 256)) (suc p) v n (p + 0) (inl (omega arith))
    ∙ ap (λ a. store mem p (v % 256) a) (let e : p + 0 ≡ p = omega arith in e)
    ∙ store_self mem p (v % 256)
memset-in mem p v (suc n) (suc j) h =
    ap (λ a. memset (store mem p (v % 256)) (suc p) v n a)
      (let e : p + suc j ≡ suc p + j = omega arith in e)
    ∙ memset-in (store mem p (v % 256)) (suc p) v n j (omega (arith, h))

pub memcpy-out :
    (mem : Memory) (dest src n a : ℕ) → Outside dest n a → memcpy mem dest src n a ≡ mem a
unfolding memcpy
memcpy-out mem dest src zero a h = refl
memcpy-out mem dest src (suc n) a h =
    memcpy-out (store mem dest (mem src)) (suc dest) (suc src) n a (ground (arith, h))
    ∙ store-ne mem dest (mem src) a (λ e. ground (arith, h, e))

copied :
    (mem : Memory) (dest src n j : ℕ)
    → (dest ≤ src) ⊎ (src + n ≤ dest)
    → j < n
    → memcpy mem dest src n (dest + j) ≡ mem (src + j)
unfolding memcpy
copied mem dest src zero j apart h = absurd (omega (arith, h))
copied mem dest src (suc n) zero apart h =
    memcpy-out (store mem dest (mem src)) (suc dest) (suc src) n (dest + 0) (inl (omega arith))
    ∙ ap (λ a. store mem dest (mem src) a) (let e : dest + 0 ≡ dest = omega arith in e)
    ∙ store_self mem dest (mem src)
    ∙ ap (λ a. mem a) (let e : src ≡ src + 0 = omega arith in e)
copied mem dest src (suc n) (suc j) apart h =
    ap (λ a. memcpy (store mem dest (mem src)) (suc dest) (suc src) n a)
      (let e : dest + suc j ≡ suc dest + j = omega arith in e)
    ∙ copied (store mem dest (mem src)) (suc dest) (suc src) n j (ground (arith, apart))
        (omega (arith, h))
    ∙ store-ne mem dest (mem src) (suc src + j) (λ e. ground (arith, apart, h, e))
    ∙ ap (λ a. mem a) (let e : suc src + j ≡ src + suc j = omega arith in e)

-- memcpy, which copies from the front, gives the destination the bytes that the source had before and
-- leaves the rest of memory alone, when the destination does not begin inside of the source
-- behind its first byte.
pub memcpy-copies :
    (mem : Memory) (dest src n : ℕ)
    → (dest ≤ src) ⊎ (src + n ≤ dest)
    → ((j : ℕ) → j < n → memcpy mem dest src n (dest + j) ≡ mem (src + j))
      × ((a : ℕ) → Outside dest n a → memcpy mem dest src n a ≡ mem a)
memcpy-copies mem dest src n apart =
    (λ j h. copied mem dest src n j apart h, λ a h. memcpy-out mem dest src n a h)

next : (mem : Memory) (p j : ℕ) → mem (suc p + j) ≡ mem (p + suc j)
next mem p j = ap (λ a. mem a) (let e : suc p + j ≡ p + suc j = omega arith in e)

first : (mem : Memory) (p : ℕ) → mem (p + 0) ≡ mem p
first mem p = ap (λ a. mem a) (let e : p + 0 ≡ p = omega arith in e)

-- Two blocks hold the same bytes.
abbrev pub SameBytes : Memory → ℕ → ℕ → ℕ → Type 0
SameBytes mem p1 p2 n = (j : ℕ) → j < n → mem (p1 + j) ≡ mem (p2 + j)

join :
    (mem : Memory) (p1 p2 n : ℕ)
    → mem p1 ≡ mem p2
    → SameBytes mem (suc p1) (suc p2) n
    → SameBytes mem p1 p2 (suc n)
join mem p1 p2 n e same zero h = first mem p1 ∙ e ∙ sym (first mem p2)
join mem p1 p2 n e same (suc j) h = sym (next mem p1 j) ∙ same j (omega (arith, h)) ∙ next mem p2 j

split :
    (mem : Memory) (p1 p2 n : ℕ)
    → SameBytes mem p1 p2 (suc n)
    → (mem p1 ≡ mem p2) × SameBytes mem (suc p1) (suc p2) n
split mem p1 p2 n same = (
  sym (first mem p1) ∙ same 0 (omega arith) ∙ first mem p2,
  λ j h. next mem p1 j ∙ same (suc j) (omega (arith, h)) ∙ sym (next mem p2 j),
)

-- memcmp gives 0 exactly for blocks that hold the same bytes.
pub memcmp_iff : (mem : Memory) (p1 p2 n : ℕ) → (memcmp mem p1 p2 n ≡ pos 0) ↔ SameBytes mem p1 p2 n
unfolding memcmp
memcmp_iff mem p1 p2 zero = (λ e j h. absurd (omega (arith, h)), λ f. refl)
memcmp_iff mem p1 p2 (suc n) =
    let (there, back) = memcmp_iff mem (suc p1) (suc p2) n in
    elim (Bool-cases (mem p1 == mem p2)) [
      | inl e ↦
          rw e
            (λ z. join mem p1 p2 n (ground (arith, e)) (there z), λ f. back (split mem p1 p2 n f).1)
      | inr e ↦ rw e (
        λ z. absurd (ground (arith, e, z)),
        λ f. absurd (ground (arith, e, (split mem p1 p2 n f).0)),
      )
    ]
