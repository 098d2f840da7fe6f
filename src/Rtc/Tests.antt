-- ===== src/Rtc/Tests.antt =====
-- The theorems of hw/rtc.c at a concrete clock.
use kvmc.Prelude.{refl, false, arith, replicate}
use kvmc.Rtc.{Rtc, Tm}
use kvmc.Rtc.Clock.{IsBcd, reg, clock_lem}
use kvmc.Rtc.Ram.{IsValid}

abbrev rtc : Rtc
rtc = record { cmos_idx = 0x40; cmos_data = replicate 128 0; nmi_disabled = false }

abbrev noon : Tm
noon = record {
  tm_sec = 30;
  tm_min = 59;
  tm_hour = 12;
  tm_mday = 31;
  tm_mon = 11;
  tm_year = 124;
  tm_wday = 2;
}

rtc-IsValid : IsValid rtc
rtc-IsValid = record { size = refl; in_range = omega arith }

clock_lem_example :
    IsBcd (reg noon rtc 0x00) 30
    × IsBcd (reg noon rtc 0x02) 59
    × IsBcd (reg noon rtc 0x04) 12
    × IsBcd (reg noon rtc 0x06) 3
    × IsBcd (reg noon rtc 0x07) 31
    × IsBcd (reg noon rtc 0x08) 12
    × IsBcd (reg noon rtc 0x09) 24
    × IsBcd (reg noon rtc 0x32) 20
clock_lem_example =
    clock_lem noon rtc (omega arith) (omega arith) (omega arith) (omega arith) (omega arith)
      (omega arith) (omega arith)
