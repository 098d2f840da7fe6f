-- ===== src/Rtc/Ram.antt =====
-- The battery-backed memory of hw/rtc.c.
use kvmc.Prelude.{
  ℕ, ◌%◌, ◌<◌, ◌≡◌, ◌≢◌, Bool, false, arith, ◌==◌, ◌||◌, if◌then◌else◌, length, length-set, get_or,
  get_or-set_self, get_or-set_ne,
}
use kvmc.Data.{Data, read8}
use kvmc.Rtc.{Rtc, Tm, data_in, data_out, index_out}

-- The index is within the 128 bytes.
pub record IsValid (rtc : Rtc) : Type 0 where
  pub size : length rtc.cmos_data ≡ 128
  pub in_range : rtc.cmos_idx < 128

-- Whatever a guest writes to the two ports, the index stays within the 128 bytes.
ports-IsValid :
    (d : Data) (rtc : Rtc) → IsValid rtc → IsValid (index_out d rtc).1 × IsValid (data_out d rtc).1
unfolding index_out data_out
ports-IsValid d rtc v = ground (arith, length-set rtc.cmos_data rtc.cmos_idx (read8 d))

-- The registers that answer the time of day.
abbrev pub is_clock : ℕ → Bool
is_clock i =
    i == 0x00
    || i == 0x02
    || i == 0x04
    || i == 0x06
    || i == 0x07
    || i == 0x08
    || i == 0x09
    || i == 0x32

-- On a valid clock memory, a byte written through the data port to a register that is neither a clock register nor
-- read-only is read back; registers C and D read back what they held before the write.
data_roundtrip :
    (tm : Tm) (d d' : Data) (rtc : Rtc)
    → IsValid rtc
    → is_clock rtc.cmos_idx ≡ false
    → read8 (data_in tm d' (data_out d rtc).1).1 ≡ (
        if rtc.cmos_idx == 0x0c || rtc.cmos_idx == 0x0d
        then get_or rtc.cmos_data rtc.cmos_idx 0 % 256
        else read8 d)
unfolding data_in data_out
data_roundtrip tm d d' rtc v c =
    ground (arith, get_or-set_self rtc.cmos_data rtc.cmos_idx (read8 d) 0, v.size, v.in_range)

-- A write through the data port leaves what every other register reads as it was.
data_out_frame :
    (tm : Tm) (d d' : Data) (rtc : Rtc) (j : ℕ)
    → j ≢ rtc.cmos_idx
    → read8 (data_in tm d' (record (data_out d rtc).1 { cmos_idx = j })).1
      ≡ read8 (data_in tm d' (record rtc { cmos_idx = j })).1
unfolding data_in data_out
data_out_frame tm d d' rtc j h = ground (
  arith,
  get_or-set_ne rtc.cmos_data {i = rtc.cmos_idx} {j = j} (read8 d) 0 (λ e. h (omega arith)),
)
