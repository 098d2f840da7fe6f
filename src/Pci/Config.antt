-- ===== src/Pci/Config.antt =====
-- What the configuration accesses of hw/pci.c answer.
use kvmc.Prelude.{
  ℕ, ◌+◌, ◌-◌, ◌*◌, ◌%◌, ◌^◌, ◌<◌, ◌≡◌, ◌≢◌, ◌⊎◌, inl, inr, true, false, none, some, ltb, ◌==◌,
  if◌then◌else◌, arith,
}
use kvmc.Data.{Data, read32}
use kvmc.Devices.{DeviceHeader, find_dev}
use kvmc.Pci.{
  CfgOps, Pci, bus_number, device_number, function_number, with_reg_offset, load, from,
  device_exists, bar_of, write_header, set_header, config_wr, config_rd, data_out, data_in,
  mmio_access,
}

-- The device has no hooks.
abbrev pub no_ops : CfgOps
no_ops = record { write = none; read = none }

-- What is read back of a base address register after a write: the new value, or the size for
-- all ones.
abbrev pub read_back : ℕ → Data → Data → ℕ
read_back b base d = if read32 d == 0xffffffff then read32 (from (256 + 4 * b) base) else read32 d

load-write_header :
    (b : ℕ) (d z base : Data)
    → b < 6
    → read32 (from (16 + 4 * b) base) ≢ 0
    → read32 (load (16 + 4 * b) 4 (write_header (16 + 4 * b) 4 d base) z) ≡ read_back b base d
unfolding write_header
load-write_header b d z base h nz =
    let bar : bar_of (16 + 4 * b) ≡ b = omega arith in rw bar (ground arith)

-- The port's address register selects base address register `b` of device `n` on bus 0.
pub record Selects (p : Pci) (n b : ℕ) (dev : DeviceHeader) : Type 0 where
  pub found : find_dev p.devices 0 n ≡ some dev
  pub number : n < 32
  pub bar : b < 6
  pub address : read32 p.config_address ≡ 2 ^ 31 + n * 2048 + (16 + 4 * b)

module _ (cfg_ops : ℕ → CfgOps) where
  exists_lem :
      (p : Pci) (n b : ℕ) (dev : DeviceHeader) → Selects p n b dev → device_exists p 0 n 0 ≡ true
  unfolding device_exists
  exists_lem p n b dev s = rw (s.address, s.found) (ground (arith, s.number, s.bar))

  config_wr_lem :
      (p : Pci) (n b w : ℕ) (dev : DeviceHeader) (d : Data)
      → Selects p n b dev
      → cfg_ops dev.owner ≡ no_ops
      → w ≡ 2 ^ 31 + n * 2048 + (16 + 4 * b)
      → config_wr cfg_ops w d 4 p
        ≡ set_header dev.owner (write_header (16 + 4 * b) 4 d (p.headers dev.owner)) p
  unfolding config_wr
  config_wr_lem p n b w dev d s plain e =
      let bus : bus_number w ≡ 0 = omega (arith, s.bar, s.number) in
      let num : device_number w ≡ n = omega (arith, s.bar, s.number) in
      let off : w % 256 ≡ 16 + 4 * b = omega (arith, s.bar) in
      rw (bus, num, exists_lem p n b dev s, s.found, plain, off)

  config_rd_lem :
      (p : Pci) (n b w : ℕ) (dev : DeviceHeader) (d : Data)
      → Selects p n b dev
      → cfg_ops dev.owner ≡ no_ops
      → w ≡ 2 ^ 31 + n * 2048 + (16 + 4 * b)
      → (config_rd cfg_ops w d 4 p).0 ≡ load (16 + 4 * b) 4 (p.headers dev.owner) d
  unfolding config_rd
  config_rd_lem p n b w dev d s plain e =
      let bus : bus_number w ≡ 0 = omega (arith, s.bar, s.number) in
      let num : device_number w ≡ n = omega (arith, s.bar, s.number) in
      let off : w % 256 ≡ 16 + 4 * b = omega (arith, s.bar) in
      rw (bus, num, exists_lem p n b dev s, s.found, plain, off)

  selected :
      (p : Pci) (n b : ℕ) (dev : DeviceHeader)
      → Selects p n b dev
      → with_reg_offset (read32 p.config_address) 0 ≡ 2 ^ 31 + n * 2048 + (16 + 4 * b)
  selected p n b dev s = omega (arith, s.address, s.bar)

  -- Through the data port a guest that writes all ones to a base address register, of a device
  -- without hooks, reads its size, and one that writes an address reads that address, if the register
  -- was not zero before.
  pub bar_read_back :
      (p : Pci) (n b : ℕ) (dev : DeviceHeader) (d z : Data)
      → Selects p n b dev
      → cfg_ops dev.owner ≡ no_ops
      → read32 (from (16 + 4 * b) (p.headers dev.owner)) ≢ 0
      → read32 (data_in cfg_ops 0xcfc z 4 (data_out cfg_ops 0xcfc d 4 p).1).1
        ≡ read_back b (p.headers dev.owner) d
  unfolding data_out data_in
  bar_read_back p n b dev d z s plain nz =
      let base = write_header (16 + 4 * b) 4 d (p.headers dev.owner) in
      let p' = set_header dev.owner base p in
      let s' : Selects p' n b dev = record {
        found = s.found;
        number = s.number;
        bar = s.bar;
        address = s.address;
      } in
      let there : p'.headers dev.owner ≡ base = ground arith in
      rw
        (
          config_wr_lem p n b (with_reg_offset (read32 p.config_address) 0) dev d s plain
              (selected p n b dev s),
          config_rd_lem p' n b (with_reg_offset (read32 p'.config_address) 0) dev z s' plain
              (selected p' n b dev s'),
          there,
        )
        (load-write_header b d z (p.headers dev.owner) s.bar nz)

  -- A read of configuration space through memory, at an address within the 2 ^ 24 bytes of the area,
  -- answers all ones and changes nothing, whatever device it addresses, if the address port was last
  -- set to another bus than the read's, or to another function than 0.
  mmio_masked :
      (area x len : ℕ) (d : Data) (p : Pci)
      → x < 2 ^ 24
      → area + x < 2 ^ 64
      → (bus_number (read32 p.config_address) ≢ bus_number x)
        ⊎ (function_number (read32 p.config_address) ≢ 0)
      → mmio_access cfg_ops area (area + x) d len false p
        ≡ ((λ i. if ltb i len then 0xff else d i), p)
  unfolding mmio_access config_rd device_exists
  mmio_masked area x len d p h1 h2 h =
      let w : (area + x + 2 ^ 64 - area) % 2 ^ 64 % 2 ^ 31 + 2 ^ 31 ≡ x + 2 ^ 31 = omega arith in
      let bus : bus_number (x + 2 ^ 31) ≡ bus_number x = omega arith in
      elim h [ inl other ↦ rw (w, bus) (ground arith) | inr other ↦ rw (w, bus) (ground arith) ]
