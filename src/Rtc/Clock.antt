-- ===== src/Rtc/Clock.antt =====
-- The clock registers of hw/rtc.c.
use kvmc.Prelude.{ℕ, ◌+◌, ◌*◌, ◌/◌, ◌%◌, ◌<◌, ◌≤◌, ◌≡◌, arith}
use kvmc.Data.{read8}
use kvmc.Rtc.{Rtc, Tm, bin2bcd, data_in}

-- The number that a BCD byte stands for.
abbrev pub from_bcd : ℕ → ℕ
from_bcd b = b / 16 * 10 + b % 16

-- A byte of two decimal digits, which stands for the number.
pub record IsBcd (b n : ℕ) : Type 0 where
  pub tens : b / 16 < 10
  pub ones : b % 16 < 10
  pub value : from_bcd b ≡ n

-- What a guest reads through the data port, with the index `i` selected.
abbrev pub reg : Tm → Rtc → ℕ → ℕ
reg tm rtc i = read8 (data_in tm (λ k. 0) (record rtc { cmos_idx = i })).1

-- If the fields of the time are in their ranges, each clock register is a byte of two decimal digits,
-- and they stand for the time of day, with days of the week and months counted from 1, and for the
-- century and the year in it, for every calendar date from 1900 to 9999.
pub clock_lem :
    (tm : Tm) (rtc : Rtc)
    → tm.tm_sec ≤ 60
    → tm.tm_min < 60
    → tm.tm_hour < 24
    → tm.tm_wday < 7
    → tm.tm_mday ≤ 31
    → tm.tm_mon < 12
    → tm.tm_year < 8100
    → IsBcd (reg tm rtc 0x00) tm.tm_sec
      × IsBcd (reg tm rtc 0x02) tm.tm_min
      × IsBcd (reg tm rtc 0x04) tm.tm_hour
      × IsBcd (reg tm rtc 0x06) (tm.tm_wday + 1)
      × IsBcd (reg tm rtc 0x07) tm.tm_mday
      × IsBcd (reg tm rtc 0x08) (tm.tm_mon + 1)
      × IsBcd (reg tm rtc 0x09) ((tm.tm_year + 1900) % 100)
      × IsBcd (reg tm rtc 0x32) ((tm.tm_year + 1900) / 100)
unfolding data_in bin2bcd
clock_lem tm rtc h1 h2 h3 h4 h5 h6 h7 = (
  shown _ tm.tm_sec (omega arith) (omega arith),
  shown _ tm.tm_min (omega arith) (omega arith),
  shown _ tm.tm_hour (omega arith) (omega arith),
  shown _ (tm.tm_wday + 1) (omega arith) (omega arith),
  shown _ tm.tm_mday (omega arith) (omega arith),
  shown _ (tm.tm_mon + 1) (omega arith) (omega arith),
  shown _ ((tm.tm_year + 1900) % 100) (omega arith) (omega arith),
  shown _ ((tm.tm_year + 1900) / 100) (omega arith) (omega arith),
)
  where
    shown : (b v : ℕ) → b ≡ v / 10 * 16 + v % 10 → v < 100 → IsBcd b v
    shown b v e h = record { tens = omega arith; ones = omega arith; value = omega arith }
