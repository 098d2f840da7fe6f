-- ===== src/VirtioPci/Ports/Bounds.antt =====
-- The reads of the ports of hw/virtio/pci.c that leave an array.
use kvmc.Prelude.{
  ℕ, zero, suc, ◌+◌, ◌-◌, ◌%◌, ◌^◌, ◌≤◌, ◌≡◌, List, [], ◌∷◌, false, none, length, get_elem?, arith,
  ◌↔◌, ◌⊎◌,
}
use kvmc.Data.{Data}
use kvmc.VirtioMmio.{Device}
use kvmc.VirtioPci.{msix_enabled}
use kvmc.VirtioPci.Ports.{Port, fault, specific_field, specific_io_in, pci_io_in}

get_elem?-none_iff : (xs : List ℕ) (i : ℕ) → (get_elem? xs i ≡ none) ↔ (length xs ≤ i)
get_elem?-none_iff [] i = ground arith
get_elem?-none_iff (x ∷ xs) zero = ground arith
get_elem?-none_iff (x ∷ xs) (suc i) = ground (arith, get_elem?-none_iff xs i)

-- The offsets at which a register is read.
abbrev pub IsRead : ℕ → Type 0
IsRead offset = (offset ≡ 0) ⊎ (offset ≡ 8) ⊎ (offset ≡ 12) ⊎ (offset ≡ 18) ⊎ (offset ≡ 19)

module _ (dev : Device) (d : Data) (p : Port) where
  -- With MSI-X off, a read of a port reads behind the device's configuration exactly if its offset
  -- is none of the five registers that are read, and the offset less 20, as a u32, is not inside the
  -- configuration.
  pub pci_io_in-fault :
      (port : ℕ)
      → msix_enabled p.vpci ≡ false
      → let offset = port - p.port_addr in
        (pci_io_in dev port d p ≡ fault)
        ↔ ((IsRead offset → ⊥) × (length p.config ≤ (offset + 2 ^ 32 - 20) % 2 ^ 32))
  unfolding pci_io_in specific_io_in specific_field
  pci_io_in-fault port off =
      let at = (port - p.port_addr + 2 ^ 32 - 20) % 2 ^ 32 in
      ground (arith, get_elem?-none_iff p.config at)
