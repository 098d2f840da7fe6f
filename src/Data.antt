-- ===== src/Data.antt =====
-- The accessors of include/kvm/ioport.h for the buffer that a port access carries. The buffer is
-- the memory at the `data` pointer: a byte for each offset. The host is little-endian (x86).
use kvmc.Prelude.{ℕ, ◌+◌, ◌*◌, ◌/◌, ◌%◌, if◌then◌else◌, ◌==◌}

abbrev pub Data : Type 0
Data = ℕ → ℕ

-- `ioport__read8`
abbrev pub read8 : Data → ℕ
read8 d = d 0 % 256

-- `ioport__read16`
abbrev pub read16 : Data → ℕ
read16 d = d 0 % 256 + 256 * (d 1 % 256)

-- `ioport__read32`
abbrev pub read32 : Data → ℕ
read32 d = d 0 % 256 + 256 * (d 1 % 256) + 65536 * (d 2 % 256) + 16777216 * (d 3 % 256)

-- `ioport__write8`
abbrev pub write8 : Data → ℕ → Data
write8 d v i = if i == 0 then v % 256 else d i

-- `ioport__write16`
abbrev pub write16 : Data → ℕ → Data
write16 d v i = if i == 0 then v % 256 else (if i == 1 then v / 256 % 256 else d i)

-- `ioport__write32`
abbrev pub write32 : Data → ℕ → Data
write32 d v i =
    if i == 0
    then v % 256
    else (if i == 1
        then v / 256 % 256
        else (if i == 2 then v / 65536 % 256 else (if i == 3 then v / 16777216 % 256 else d i)))
