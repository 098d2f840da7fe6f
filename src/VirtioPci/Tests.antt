-- ===== src/VirtioPci/Tests.antt =====
-- A virtio device on the PCI bus with two queues and two vectors.
use kvmc.Prelude.{
  ltb, some, none, if◌then◌else◌, ◌↔◌, ◌≤◌, ◌%◌, ◌-◌, ◌^◌, ℕ, ◌+◌, ◌≡◌, refl, [], ◌∷◌, true, false,
  some,
}
use kvmc.Irq.{MsiMsg}
use kvmc.VirtioPci.{MsixEntry, Vpci, Kernel}
use kvmc.Data.{Data}
use kvmc.VirtioMmio.{Device}
use kvmc.VirtioPci.Ports.{Port, fault, pci_io_in}
use kvmc.VirtioPci.Ports.Bounds.{IsRead, pci_io_in-fault}

abbrev message : MsiMsg
message = record { address_lo = 0xfee00000; address_hi = 0; msg_data = 0x41 }

abbrev entry : MsixEntry
entry = record { msg = message; ctrl = 0 }

abbrev block : Vpci
block = record {
  isr = 0;
  signal_msi_feature = false;
  legacy_irq_line = 5;
  config_vector = 0xffff;
  config_gsi = 0;
  vq_vector = 0xffff ∷ 0xffff ∷ [];
  gsis = 0 ∷ 0 ∷ [];
  msix_pba = 0;
  msix_table = entry ∷ entry ∷ [];
  msix_ctrl = 0x8001;
  queue_selector = 1;
  dev_num = 3;
  routing = record {
    irq_routing = some [];
    allocated_gsis = 32;
    next_gsi = 24;
    has_irq_routing = some true;
    updates = [];
  };
  signals = [];
}

abbrev kernel : Kernel
kernel = record { supported = true; realloc = true; needs_devid = false; update_route = λ t. 0 }

abbrev port : Port
port = record {
  vpci = record block { msix_ctrl = 1 };
  port_addr = 0x6200;
  mmio_addr = 0xd2000000;
  status = 0;
  ioeventfds = 0 ∷ 0 ∷ [];
  config = 1 ∷ 2 ∷ [];
  events = record { avail = true; used = []; calls = [] };
  told = [];
}

abbrev device : Device
device = record {
  host_features = 0;
  get_pfn_vq = λ vq. if ltb vq 3 then some 0 else none;
  get_size_vq = λ vq. some 128;
  stays_inside = λ t. true;
  has_notify_status = true;
  has_notify_eventfd = false;
  use_vhost = false;
}

-- The data of an access, all zero, and the offset of VIRTIO_PCI_GUEST_FEATURES.
abbrev zeros : Data
zeros i = 0

abbrev guest_features : ℕ
guest_features = 4

pci_io_in-fault_example :
    (pci_io_in device 0x6204 zeros port ≡ fault)
    ↔ ((IsRead guest_features → ⊥) × (2 ≤ (guest_features + 2 ^ 32 - 20) % 2 ^ 32))
pci_io_in-fault_example = pci_io_in-fault device zeros port 0x6204 refl
