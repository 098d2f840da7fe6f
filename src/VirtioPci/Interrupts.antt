-- ===== src/VirtioPci/Interrupts.antt =====
-- What the interrupts of hw/virtio/pci.c come to.
use kvmc.Prelude.{ℕ, ◌*◌, ◌≡◌, refl, ◌∙◌, List, Bool, false, some, get_elem?, set}
use kvmc.Irq.{RoutingEntry, Routing, route_of}
use kvmc.VirtioPci.{
  MsixEntry, irq_trigger, Vpci, done, raise, msix_enabled, signal_vector, pci_signal_vq,
  pci_signal_config, read_isr, Kernel,
}

pci_signal_vq-vector :
    (vq tbl gsi : ℕ) (v : Vpci)
    → get_elem? v.vq_vector vq ≡ some tbl
    → get_elem? v.gsis vq ≡ some gsi
    → pci_signal_vq vq v ≡ signal_vector tbl gsi 1 v
unfolding pci_signal_vq
pci_signal_vq-vector vq tbl gsi v vector route = rw (pci_signal_vq, vector, route) refl

signal_vector-legacy :
    (tbl gsi legacy : ℕ) (v : Vpci)
    → msix_enabled v ≡ false
    → signal_vector tbl gsi legacy v
      ≡ done (raise (irq_trigger v.legacy_irq_line) (record v { isr = legacy }))
unfolding signal_vector
signal_vector-legacy tbl gsi legacy v off = rw (signal_vector, off) refl

module _ (k : Kernel) (notifies : Bool) (vec : ℕ) (v : Vpci) (es : List RoutingEntry)
    (e : MsixEntry) where
  abbrev pub new_route : RoutingEntry
  new_route = route_of e.msg k.needs_devid (v.dev_num * 8) v.routing.next_gsi

  abbrev steered_to : Routing → Vpci
  steered_to r = record v { vq_vector = set v.vq_vector v.queue_selector vec; routing = r }

-- Without MSI-X, a change of the configuration hides an interrupt of a queue: if both are signalled
-- before the guest reads VIRTIO_PCI_ISR, it reads that of the configuration alone, and 0 after that.
isr_lost :
    (vq tbl gsi : ℕ) (v : Vpci)
    → get_elem? v.vq_vector vq ≡ some tbl
    → get_elem? v.gsis vq ≡ some gsi
    → msix_enabled v ≡ false
    → (v' : Vpci) × (v'' : Vpci) × (pci_signal_vq vq v ≡ done v')
      × (pci_signal_config v' ≡ done v'')
      × ((read_isr v'').0 ≡ 2)
      × ((read_isr (read_isr v'').1).0 ≡ 0)
unfolding pci_signal_config read_isr
isr_lost vq tbl gsi v vector route off =
    let v' = raise (irq_trigger v.legacy_irq_line) (record v { isr = 1 }) in
    (
      v',
      raise (irq_trigger v.legacy_irq_line) (record v' { isr = 2 }),
      pci_signal_vq-vector vq tbl gsi v vector route ∙ signal_vector-legacy tbl gsi 1 v off,
      signal_vector-legacy v'.config_vector v'.config_gsi 2 v' off,
      refl,
      refl,
    )
