-- ===== src/VirtioPci.antt =====
-- hw/virtio/pci.c: the interrupts of a virtio device on the PCI bus, and the registers that steer
-- them. `fault` is an access behind an array, a null pointer that is followed, or `die`. The answers
-- of the kernel to a new route are arguments, as in Irq.
pub mod Interrupts
pub mod Ports
mod Tests
use kvmc.Prelude.{
  ℕ, ◌+◌, ◌*◌, ◌/◌, ◌%◌, ◌^◌, List, [], ◌∷◌, ◌++◌, Bool, true, false, not, ◌&&◌, ◌||◌, Option, none,
  some, ltb, ◌==◌, if◌then◌else◌, length, get_elem?, set, test_bit, ◌-◌,
}
use Prim.Native.Nat.{bit_or}
use kvmc.Irq.{MsiMsg, RoutingEntry, Routing, Status, ok, enxio, enomem, failed, add_msix_route}

-- `struct msix_table`
pub record MsixEntry : Type 0 where
  pub msg : MsiMsg
  pub ctrl : ℕ

-- What reaches the guest: an interrupt of a line or a route by `kvm__irq_trigger`, a level by
-- `kvm__irq_line`, a message by `irq__signal_msi`, here without the device's number; and what the
-- device is told.
pub data Signal : Type 0 where
  irq_trigger : ℕ → Signal
  irq_line : (line level : ℕ) → Signal
  signal_msi : MsiMsg → Signal
  notify_vq_gsi : (vq gsi : ℕ) → Signal

-- `struct virtio_pci`, its part for interrupts. `signal_msi_feature` is VIRTIO_PCI_F_SIGNAL_MSI in
-- `features`, `msix_ctrl` the control word of the capability, `dev_num` the device's number.
pub record Vpci : Type 0 where
  pub isr : ℕ
  pub signal_msi_feature : Bool
  pub legacy_irq_line : ℕ
  pub config_vector : ℕ
  pub config_gsi : ℕ
  pub vq_vector : List ℕ
  pub gsis : List ℕ
  pub msix_pba : ℕ
  pub msix_table : List MsixEntry
  pub msix_ctrl : ℕ
  pub queue_selector : ℕ
  pub dev_num : ℕ
  pub routing : Routing
  pub signals : List Signal

-- How an operation ends.
pub data Ends : Type 0 where
  fault : Ends
  done : Vpci → Ends

abbrev pub raise : Signal → Vpci → Vpci
raise s v = record v { signals = v.signals ++ (s ∷ []) }

-- `virtio_pci__msix_enabled`: PCI_MSIX_FLAGS_ENABLE is bit 15.
abbrev pub msix_enabled : Vpci → Bool
msix_enabled v = test_bit v.msix_ctrl 15

-- PCI_MSIX_FLAGS_MASKALL is bit 14, PCI_MSIX_ENTRY_CTRL_MASKBIT bit 0.
abbrev pub masked : Vpci → MsixEntry → Bool
masked v e = test_bit v.msix_ctrl 14 || test_bit e.ctrl 0

-- `1 << tbl`, an int: its bit 31 is the sign, and further shifts are undefined (`none`).
abbrev pub shifted : ℕ → Option ℕ
shifted tbl =
    if ltb tbl 31 then some (2 ^ tbl) else (if tbl == 31 then some (2 ^ 64 - 2 ^ 31) else none)

-- The part that `virtio_pci__signal_vq` and `virtio_pci__signal_config` share: the vector, the route,
-- and the value of `isr`. 0xffff is VIRTIO_MSI_NO_VECTOR.
pub signal_vector : ℕ → ℕ → ℕ → Vpci → Ends
signal_vector tbl gsi legacy v =
    if msix_enabled v && not (tbl == 0xffff)
    then elim (get_elem? v.msix_table tbl) [
      | none ↦ fault
      | some e ↦
          if masked v e
          then elim (shifted tbl) [
            | none ↦ fault
            | some b ↦ done (record v { msix_pba = bit_or v.msix_pba b })
          ]
          else (if v.signal_msi_feature
              then done (raise (signal_msi e.msg) v)
              else done (raise (irq_trigger gsi) v))
    ]
    else done (raise (irq_trigger v.legacy_irq_line) (record v { isr = legacy }))

-- `virtio_pci__signal_vq`
pub pci_signal_vq : ℕ → Vpci → Ends
unfolding signal_vector
pci_signal_vq vq v = elim (get_elem? v.vq_vector vq) [
  | none ↦ fault
  | some tbl ↦ elim (get_elem? v.gsis vq) [ none ↦ fault | some gsi ↦ signal_vector tbl gsi 1 v ]
]

-- `virtio_pci__signal_config`; VIRTIO_PCI_ISR_CONFIG is 2.
pub pci_signal_config : Vpci → Ends
unfolding signal_vector
pci_signal_config v = signal_vector v.config_vector v.config_gsi 2 v

-- The read of VIRTIO_PCI_ISR in `virtio_pci__io_in`: the byte and the state.
pub read_isr : Vpci → ℕ × Vpci
read_isr v = (v.isr, record (raise (irq_line v.legacy_irq_line 0) v) { isr = 0 })

-- What a route's number is used for, behind `irq__add_msix_route`: a negative answer ends the
-- program, but for -ENXIO of a device that can signal messages.
pub use_route : Vpci → (ℕ → Vpci → Vpci) → Option (Status × Routing) → Ends
use_route v keep none = fault
use_route v keep (some (ok gsi, r)) = done (keep gsi (record v { routing = r }))
use_route v keep (some (enxio, r)) =
    if v.signal_msi_feature then done (record v { routing = r }) else fault
use_route v keep (some (enomem, r)) = fault
use_route v keep (some (failed n, r)) = fault

-- What the kernel and the host answer to a new route.
pub record Kernel : Type 0 where
  pub supported : Bool
  pub realloc : Bool
  pub needs_devid : Bool
  pub update_route : List RoutingEntry → ℕ

-- The route for an entry of the table.
pub route_vector : Kernel → ℕ → (ℕ → Vpci → Vpci) → Vpci → Ends
unfolding use_route
route_vector k vec keep v = if vec == 0xffff then done v else elim (get_elem? v.msix_table vec) [
  | none ↦ fault
  | some e ↦ use_route v keep (
      add_msix_route k.supported k.realloc k.needs_devid e.msg (v.dev_num * 8) k.update_route
        v.routing)
]

-- The writes to VIRTIO_MSI_CONFIG_VECTOR and VIRTIO_MSI_QUEUE_VECTOR in
-- `virtio_pci__specific_io_out`, of a u16. `notifies` is whether the device has `notify_vq_gsi`.
pub write_config_vector : Kernel → ℕ → Vpci → Ends
unfolding route_vector
write_config_vector k vec v =
    route_vector k vec (λ gsi v'. record v' { config_gsi = gsi }) (record v { config_vector = vec })

abbrev pub keep_gsi : Bool → ℕ → Vpci → Vpci
keep_gsi notifies gsi v =
    let kept = record v { gsis = set v.gsis v.queue_selector gsi } in
    if notifies then raise (notify_vq_gsi v.queue_selector gsi) kept else kept

pub write_queue_vector : Kernel → Bool → ℕ → Vpci → Ends
unfolding route_vector
write_queue_vector k notifies vec v =
    if ltb v.queue_selector (length v.vq_vector)
    then route_vector k vec (keep_gsi notifies)
        (record v { vq_vector = set v.vq_vector v.queue_selector vec })
    else fault
