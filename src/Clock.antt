-- ===== src/Clock.antt =====
-- The clock of src/drivers/rtc.c. What the registers hold once no update is in progress is a function.
mod Tests
use hz_os.Base.{ℕ, ◌+◌, ◌*◌, ◌/◌, ◌%◌, ◌<◌, ◌≡◌, Bool, true, false, if◌then◌else◌, ◌==◌, arith}

pub record RtcTime : Type 0 where
  pub second : ℕ
  pub minute : ℕ
  pub hour : ℕ
  pub day : ℕ
  pub month : ℕ
  pub year : ℕ

-- Two decimal digits in the halves of a byte.
abbrev pub from_bcd : ℕ → ℕ
from_bcd v = v % 16 + v / 16 * 10

-- Bit 7 says that it is past noon, and stays where it is; the sum below it has no bit 7.
abbrev pub hour_from_bcd : ℕ → ℕ
hour_from_bcd v = v % 16 + v / 16 % 8 * 10 + v / 128 * 128

-- `regB & 0x04`
abbrev pub is_binary : ℕ → Bool
is_binary reg_b = reg_b / 4 % 2 == 1

unfoldable pub rtc_read : (ℕ → ℕ) → RtcTime
rtc_read read_register =
    if is_binary (read_register 0x0B)
    then record {
      second = read_register 0x00;
      minute = read_register 0x02;
      hour = read_register 0x04;
      day = read_register 0x07;
      month = read_register 0x08;
      year = read_register 0x09 + 2000;
    }
    else record {
      second = from_bcd (read_register 0x00);
      minute = from_bcd (read_register 0x02);
      hour = hour_from_bcd (read_register 0x04);
      day = from_bcd (read_register 0x07);
      month = from_bcd (read_register 0x08);
      year = from_bcd (read_register 0x09) + 2000;
    }

abbrev pub to_bcd : ℕ → ℕ
to_bcd n = n / 10 * 16 + n % 10

-- A number below 100 comes back from its two digits, and an hour below 24 as well.
pub from_bcd-to_bcd : (n : ℕ) → n < 100 → from_bcd (to_bcd n) ≡ n
from_bcd-to_bcd n h = omega arith

pub hour_from_bcd-to_bcd : (n : ℕ) → n < 24 → hour_from_bcd (to_bcd n) ≡ n
hour_from_bcd-to_bcd n h = omega arith
