-- ===== src/Rtc.antt =====
-- hw/rtc.c: the CMOS clock and its memory, behind the index port 0x70 and the data port 0x71. The
-- time of day is what `gmtime` answers, with non-negative fields.
pub mod Clock
pub mod Ram
mod Tests
use kvmc.Prelude.{
  ℕ, ◌+◌, ◌*◌, ◌/◌, ◌%◌, ◌^◌, List, Bool, true, ◌==◌, ◌||◌, if◌then◌else◌, get_or, set, replicate,
  test_bit, clear_bit,
}
use kvmc.Data.{Data, read8, write8}

-- `struct tm`
pub record Tm : Type 0 where
  pub tm_sec : ℕ
  pub tm_min : ℕ
  pub tm_hour : ℕ
  pub tm_mday : ℕ
  pub tm_mon : ℕ
  pub tm_year : ℕ
  pub tm_wday : ℕ

-- `struct rtc_device`, with `kvm->nmi_disabled`.
pub record Rtc : Type 0 where
  pub cmos_idx : ℕ
  pub cmos_data : List ℕ
  pub nmi_disabled : Bool

pub bin2bcd : ℕ → ℕ
bin2bcd val = (val / 10 * 16 + val % 10) % 256

-- `cmos_ram_data_in`. The index is below 128 (`Ram`), so the read is in range.
pub data_in : Tm → Data → Rtc → Bool × Data
unfolding bin2bcd
data_in tm d rtc =
    let i = rtc.cmos_idx in
    let year = tm.tm_year + 1900 in
    if i == 0x00
    then (true, write8 d (bin2bcd tm.tm_sec))
    else (if i == 0x02
        then (true, write8 d (bin2bcd tm.tm_min))
        else (if i == 0x04
            then (true, write8 d (bin2bcd tm.tm_hour))
            else (if i == 0x06
                then (true, write8 d (bin2bcd (tm.tm_wday + 1)))
                else (if i == 0x07
                    then (true, write8 d (bin2bcd tm.tm_mday))
                    else (if i == 0x08
                        then (true, write8 d (bin2bcd (tm.tm_mon + 1)))
                        else (if i == 0x09
                            then (true, write8 d (bin2bcd (year % 100)))
                            else (if i == 0x32
                                then (true, write8 d (bin2bcd (year / 100)))
                                else (true, write8 d (get_or rtc.cmos_data i 0)))))))))

-- `cmos_ram_data_out`; registers C and D are read-only.
pub data_out : Data → Rtc → Bool × Rtc
data_out d rtc =
    if rtc.cmos_idx == 0x0c || rtc.cmos_idx == 0x0d
    then (true, rtc)
    else (true, record rtc { cmos_data = set rtc.cmos_data rtc.cmos_idx (read8 d) })

-- `cmos_ram_index_out`: bit 7 masks the NMI, the rest is the index.
pub index_out : Data → Rtc → Bool × Rtc
index_out d rtc =
    let value = read8 d in
    (true, record rtc { nmi_disabled = test_bit value 7; cmos_idx = clear_bit value 7 })
