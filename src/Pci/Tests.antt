-- ===== src/Pci/Tests.antt =====
-- The theorems of hw/pci.c at a machine with one device, whose first base address register has 256
-- bytes.
use kvmc.Prelude.{ℕ, ◌≡◌, refl, [], ◌∷◌, arith, ◌==◌, if◌then◌else◌}
use kvmc.RbTree.{leaf, node, black}
use kvmc.Data.{Data, read32}
use kvmc.Devices.{DeviceHeader, find_number, find_dev}
use kvmc.Pci.{CfgOps, Pci, data_out, data_in}
use kvmc.Pci.Config.{no_ops, Selects, bar_read_back}

abbrev card : DeviceHeader
card = record { bus_type = 0; dev_num = 1; irq_line = 5; irq_pin = 1; irq_type = 1; owner = 7 }

-- The register holds an I/O address; `bar_size` starts at 256.
abbrev memory : Data
memory i = if i == 16 then 1 else (if i == 17 then 0x62 else (if i == 257 then 1 else 0))

-- The address port holds 0x80000810: device 1, register 0x10.
abbrev machine : Pci
machine = record {
  config_address =
      λ i. if i == 0 then 0x10 else (if i == 1 then 8 else (if i == 3 then 0x80 else 0));
  devices = record {
    device_trees = record { root = node black leaf card leaf; dev_num = 2 } ∷ [];
    next_line = 6;
  };
  headers = λ a. memory;
}

abbrev plain : ℕ → CfgOps
plain a = no_ops

machine-Selects : Selects machine 1 0 card
unfolding find_dev find_number
machine-Selects = record { found = refl; number = omega arith; bar = omega arith; address = refl }

bar_read_back_example :
    read32 (data_in plain 0xcfc (λ i. 0) 4 (data_out plain 0xcfc (λ i. 0xff) 4 machine).1).1 ≡ 0x100
bar_read_back_example =
    bar_read_back plain machine 1 0 card (λ i. 0xff) (λ i. 0) machine-Selects refl (omega arith)
