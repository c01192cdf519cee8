-- ===== src/Clock/Tests.antt =====
-- The clock of src/drivers/rtc.c at concrete registers.
use hz_os.Base.{ℕ, ◌≡◌, refl, if◌then◌else◌, ◌==◌}
use hz_os.Clock.{rtc_read}

-- One o'clock past noon on a clock of twelve hours is hour 129.
abbrev past_noon : ℕ → ℕ
past_noon reg = if reg == 4 then 0x81 else 0

hour_of_noon : (rtc_read past_noon).hour ≡ 129
unfolding rtc_read
hour_of_noon = refl
