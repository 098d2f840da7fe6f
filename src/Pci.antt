-- ===== src/Pci.antt =====
-- hw/pci.c: the configuration space of the PCI devices, behind the address ports from 0xcf8 and the
-- data ports from 0xcfc, and behind a region of memory. A device's `struct pci_device_header` is its
-- memory, a byte for each offset: 256 bytes of configuration space, then `bar_size`. The hooks
-- `cfg_ops` of a device are functions on that memory and the access's buffer.
pub mod Config
mod Tests
use kvmc.Prelude.{
  ℕ, ◌+◌, ◌-◌, ◌*◌, ◌/◌, ◌%◌, ◌^◌, Bool, true, false, not, ◌&&◌, Option, none, some, ltb, leb, ◌==◌,
  if◌then◌else◌,
}
use kvmc.Data.{Data, read32}
use kvmc.Devices.{Devices, find_dev}

-- A hook: offset, size, the device's memory and the buffer.
abbrev pub CfgOp : Type 0
CfgOp = ℕ → ℕ → Data × Data → Data × Data

-- `struct pci_config_operations`
pub record CfgOps : Type 0 where
  pub write : Option CfgOp
  pub read : Option CfgOp

-- `pci_config_address_bits` as memory, the devices, and the memory of each one by its address.
pub record Pci : Type 0 where
  pub config_address : Data
  pub devices : Devices
  pub headers : ℕ → Data

-- The fields of `union pci_config_address`.
abbrev pub bus_number : ℕ → ℕ
bus_number w = w / 65536 % 256

abbrev pub device_number : ℕ → ℕ
device_number w = w / 2048 % 32

abbrev pub function_number : ℕ → ℕ
function_number w = w / 256 % 8

abbrev pub with_reg_offset : ℕ → ℕ → ℕ
with_reg_offset w o = w / 4 * 4 + o % 4

-- `memcpy(base + offset, data, size)`
abbrev pub store : ℕ → ℕ → Data → Data → Data
store offset size d base i =
    if leb offset i && ltb i (offset + size) then d (i - offset) % 256 else base i

-- `memcpy(data, base + offset, size)`
abbrev pub load : ℕ → ℕ → Data → Data → Data
load offset size base d i = if ltb i size then base (offset + i) % 256 else d i

-- The memory from an offset on.
abbrev pub from : ℕ → Data → Data
from offset base i = base (offset + i)

-- `pci_device_exists`, which looks at the address that the port holds. Bus 0 is DEVICE_BUS_PCI.
pub device_exists : Pci → ℕ → ℕ → ℕ → Bool
device_exists p bus dev_num function =
    let w = read32 p.config_address in
    if not (bus_number w == bus)
    then false
    else (if not (function_number w == function)
        then false
        else elim (find_dev p.devices 0 dev_num) [ none ↦ false | some dev ↦ true ])

abbrev pub run : Option CfgOp → ℕ → ℕ → Data × Data → Data × Data
run none offset size memory = memory
run (some f) offset size memory = f offset size memory

-- `bar`, a u8 of a 64-bit difference.
abbrev pub bar_of : ℕ → ℕ
bar_of offset = (offset + (2 ^ 64 - 16)) % 2 ^ 64 / 4 % 256

-- `pci__config_wr` behind the hook, on the device's memory.
pub write_header : ℕ → ℕ → Data → Data → Data
write_header offset size d base =
    if read32 (from offset base) == 0
    then base
    else (if ltb (bar_of offset) 6 && read32 d == 0xffffffff
        then store offset 4 (from (256 + 4 * bar_of offset) base) base
        else store offset size d base)

abbrev pub set_header : ℕ → Data → Pci → Pci
set_header owner base p = record p { headers = λ a. if a == owner then base else p.headers a }

module _ (cfg_ops : ℕ → CfgOps) where
  -- `pci__config_wr`
  pub config_wr : ℕ → Data → ℕ → Pci → Pci
  config_wr w d size p =
      if not (device_exists p (bus_number w) (device_number w) 0)
      then p
      else elim (find_dev p.devices 0 (device_number w)) [
        | none ↦ p
        | some dev ↦
            let (base, d') =
              run (cfg_ops dev.owner).write (w % 256) size (p.headers dev.owner, d) in
            set_header dev.owner (write_header (w % 256) size d' base) p
      ]

  -- `pci__config_rd`
  pub config_rd : ℕ → Data → ℕ → Pci → Data × Pci
  config_rd w d size p =
      if not (device_exists p (bus_number w) (device_number w) 0)
      then ((λ i. if ltb i size then 0xff else d i), p)
      else elim (find_dev p.devices 0 (device_number w)) [
        | none ↦ (d, p)
        | some dev ↦
            let (base, d') = run (cfg_ops dev.owner).read (w % 256) size (p.headers dev.owner, d) in
            (load (w % 256) size base d', set_header dev.owner base p)
      ]

  -- `pci_config_address_out` and `pci_config_address_in`, for a port from 0xcf8 on.
  pub address_out : ℕ → Data → ℕ → Pci → Bool × Pci
  address_out port d size p =
      (true, record p { config_address = store (port - 0xcf8) size d p.config_address })

  pub address_in : ℕ → Data → ℕ → Pci → Bool × Data × Pci
  address_in port d size p = (true, load (port - 0xcf8) size p.config_address d, p)

  -- `pci_config_data_out` and `pci_config_data_in`, for a port from 0xcfc on.
  pub data_out : ℕ → Data → ℕ → Pci → Bool × Pci
  data_out port d size p =
      (true, config_wr (with_reg_offset (read32 p.config_address) (port - 0xcfc)) d size p)

  pub data_in : ℕ → Data → ℕ → Pci → Bool × Data × Pci
  data_in port d size p =
      let (d', p') =
        config_rd (with_reg_offset (read32 p.config_address) (port - 0xcfc)) d size p in
      (true, d', p')

  -- `pci_config_mmio_access`; `area` is KVM_PCI_CFG_AREA of the architecture, and bit 31 of the
  -- address is set.
  pub mmio_access : ℕ → ℕ → Data → ℕ → Bool → Pci → Data × Pci
  mmio_access area addr d len is_write p =
      let w = (addr + 2 ^ 64 - area) % 2 ^ 64 % 2 ^ 31 + 2 ^ 31 in
      if is_write then (d, config_wr w d len p) else config_rd w d len p

-- `pci__find_dev`: the device's address.
pub pci_find_dev : Pci → ℕ → Option ℕ
pci_find_dev p dev_num = elim (find_dev p.devices 0 dev_num) [
  | none ↦ none
  | some dev ↦ some dev.owner
]
