-- ===== src/Base/Wrap.antt =====
-- The `int` of C: a value in its range does not wrap.
use hz_os.Base.{◌-◌, ◌%◌, ◌^◌, ◌≡◌, false, ltb, arith, ap}
use hz_os.Base.Int.{ℤ, pos, negsuc, wrap_int, InInt}

pub wrap_int-InInt : (z : ℤ) → InInt z → wrap_int z ≡ z
unfolding wrap_int
wrap_int-InInt (pos n) h = ground (arith, h)
wrap_int-InInt (negsuc n) h =
    let same : 2 ^ 32 - 1 - n % 2 ^ 32 ≡ 2 ^ 32 - 1 - n = omega (arith, h) in
    let high : ltb (2 ^ 32 - 1 - n) (2 ^ 31) ≡ false = ground (arith, h) in
    let back : 2 ^ 32 - 1 - (2 ^ 32 - 1 - n) ≡ n = omega (arith, h) in
    rw (same, high) (ap negsuc back)
