-- ===== src/Memory.antt =====
-- The loops on memory of src/lib/memory.c. Memory is a function from addresses to bytes.
mod Tests
pub mod Blocks
use hz_os.Base.{ℕ, zero, suc, ◌+◌, ◌%◌, Bool, true, false, if◌then◌else◌, ◌==◌}
use hz_os.Base.Int.{ℤ, pos, sub_ℕ}

abbrev pub Memory : Type 0
Memory = ℕ → ℕ

abbrev pub store : Memory → ℕ → ℕ → Memory
store mem p v = λ a. if a == p then v else mem a

unfoldable pub memset : Memory → ℕ → ℕ → ℕ → Memory
memset mem p value zero = mem
memset mem p value (suc num) = memset (store mem p (value % 256)) (suc p) value num

unfoldable pub memcpy : Memory → ℕ → ℕ → ℕ → Memory
memcpy mem dest src zero = mem
memcpy mem dest src (suc count) = memcpy (store mem dest (mem src)) (suc dest) (suc src) count

unfoldable pub memcmp : Memory → ℕ → ℕ → ℕ → ℤ
memcmp mem p1 p2 zero = pos 0
memcmp mem p1 p2 (suc n) =
    let more = memcmp mem (suc p1) (suc p2) n in
    if mem p1 == mem p2 then more else sub_ℕ (mem p1) (mem p2)
