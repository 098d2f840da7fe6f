-- ===== src/VirtioPci/Ports.antt =====
-- hw/virtio/pci.c: the ports of a virtio device on the PCI bus, with the device as in VirtioMmio.
-- PCI's accessors see the registers of the legacy interface at offsets 0 to 19, the two vectors at 20
-- and 22 while MSI-X is on, and the device's configuration behind them.
pub mod Bounds
use kvmc.Prelude.{
  ℕ, ◌+◌, ◌-◌, ◌%◌, ◌^◌, List, [], ◌∷◌, ◌++◌, Bool, true, false, not, ◌&&◌, Option, none, some, ltb,
  ◌==◌, if◌then◌else◌, length, get_elem?, set,
}
use kvmc.Data.{Data, read8, read16, read32, write8, write16, write32}
use kvmc.Ioeventfd.{
  Ioevent, Events, Request, Answers, Result, success, failure, add_event, del_event,
}
use kvmc.VirtioMmio.{
  Told, endianness_sampled, notify_status, set_guest_features, init_vq, notify_vq,
  notify_vq_eventfd, Device, switch,
}
use kvmc.VirtioPci.{
  Vpci, Ends, Kernel, msix_enabled, read_isr, write_config_vector, write_queue_vector,
}

-- The rest of `struct virtio_pci`.
pub record Port : Type 0 where
  pub vpci : Vpci
  pub port_addr : ℕ
  pub mmio_addr : ℕ
  pub status : ℕ
  pub ioeventfds : List ℕ
  pub config : List ℕ
  pub events : Events
  pub told : List Told

-- How an access ends: with an access behind an array (or the end of the program), with one outside the
-- arrays of the device, or with what the handler answers.
pub data PortAccess : Type 0 where
  fault : PortAccess
  device_fault : PortAccess
  answered : Bool → Data → Port → PortAccess

-- An operation of the device on a queue, and a value that the device answers for one.
abbrev pub asks_device : Device → Told → PortAccess → PortAccess
asks_device dev t a = if dev.stays_inside t then a else device_fault

abbrev pub answers_value : (ℕ → Data) → Port → Option ℕ → PortAccess
answers_value f p none = device_fault
answers_value f p (some v) = answered true (f v) p

abbrev pub informed : Told → Port → Port
informed t p = record p { told = p.told ++ (t ∷ []) }

-- `virtio__get_dev_specific_field` of an offset less 20: `none` for VIRTIO_PCI_O_MSIX, or the u32
-- offset into the configuration.
pub specific_field : ℕ → Bool → Option ℕ
specific_field offset msix =
    if msix && ltb offset 24
    then none
    else some ((offset + 2 ^ 32 - (if msix then 24 else 20)) % 2 ^ 32)

-- `virtio_pci__specific_io_in`
pub specific_io_in : ℕ → Data → Port → PortAccess
unfolding specific_field
specific_io_in offset d p =
    let v = p.vpci in
    let queue_vector : PortAccess = elim (get_elem? v.vq_vector v.queue_selector) [
      | none ↦ fault
      | some vec ↦ answered true (write16 d vec) p
    ] in
    elim (specific_field offset (msix_enabled v)) [
      | none ↦
          switch offset
            ((20, answered true (write16 d v.config_vector) p) ∷ (22, queue_vector) ∷ [])
            (answered true d p)
      | some at ↦ elim (get_elem? p.config at) [
        | none ↦ fault
        | some b ↦ answered true (write8 d b) p
      ]
    ]

-- `virtio_pci__io_in`
pub pci_io_in : Device → ℕ → Data → Port → PortAccess
unfolding specific_io_in
pci_io_in dev port d p =
    let v = p.vpci in
    let offset = port - p.port_addr in
    let (isr, v') = read_isr v in
    switch offset
      ((0, answered true (write32 d dev.host_features) p)
        ∷ (8, answers_value (λ n. write32 d n) p (dev.get_pfn_vq v.queue_selector))
        ∷ (12, answers_value (λ n. write16 d n) p (dev.get_size_vq v.queue_selector))
        ∷ (18, answered true (write8 d p.status) p)
        ∷ (19, answered true (write8 d isr) (record p { vpci = v' }))
        ∷ [])
      (specific_io_in offset d p)

-- The structure for one of the two events of a queue.
abbrev pub ioevent_at : ℕ → ℕ → ℕ → Ioevent
ioevent_at addr vq fd = record {
  io_addr = addr + 16;
  io_len = 2;
  fn_ptr = vq;
  fd = fd;
  datamatch = vq;
  flags = 0;
}

abbrev pub answered_kvm : Result → Bool
answered_kvm success = true
answered_kvm (failure n) = false

-- `virtio_pci__init_ioeventfd`, whose answer is not used: the answers and descriptors are those for
-- the port's event and for the memory's. The structure is one variable: the second event is made of
-- the first's, with the flags that the addition has stored there.
pub pci_init_ioeventfd : Device → Bool → Answers × Answers → ℕ × ℕ → ℕ → Port → Option Port
pci_init_ioeventfd dev has_pio (a, a') (fd, fd') vq p =
    let polled : Request = record { pio = true; user_poll = not dev.use_vhost } in
    let plain : Request = record { pio = false; user_poll = not dev.use_vhost } in
    let named = record p { ioeventfds = set p.ioeventfds vq vq } in
    let (r, e, s) = add_event has_pio a polled (ioevent_at p.port_addr vq fd) p.events in
    let second = record e { io_addr = (p.mmio_addr + 16) % 2 ^ 32; fd = fd' } in
    let (r', e', s') = add_event has_pio a' plain second s in
    let both = record named { events = s' } in
    if not (ltb vq (length p.ioeventfds))
    then none
    else (if not (answered_kvm r)
        then some (record named { events = s })
        else (if not (answered_kvm r')
            then some (record named { events = (del_event (p.port_addr + 16) vq s').1 })
            else (if dev.has_notify_eventfd
                then some (informed (notify_vq_eventfd vq fd) both)
                else some both)))

-- What a write of a vector comes to.
abbrev pub with_vpci : Data → Port → Ends → PortAccess
with_vpci d p Ends.fault = fault
with_vpci d p (Ends.done v) = answered true d (record p { vpci = v })

-- `virtio_pci__specific_io_out`
pub specific_io_out : Kernel → Bool → ℕ → Data → Port → PortAccess
unfolding specific_field
specific_io_out k notifies offset d p =
    let v = p.vpci in
    elim (specific_field offset (msix_enabled v)) [
      | none ↦
          switch offset
            ((20, with_vpci d p (write_config_vector k (read16 d) v))
              ∷ (22, with_vpci d p (write_queue_vector k notifies (read16 d) v))
              ∷ [])
            (answered true d p)
      | some at ↦
          if ltb at (length p.config)
          then answered true d (record p { config = set p.config at (read8 d) })
          else fault
    ]

-- The write to VIRTIO_PCI_STATUS.
pub write_status : Device → ℕ → Port → Port
write_status dev s p =
    let stored = record p { status = s } in
    let sampled = if s == 0 then informed endianness_sampled stored else stored in
    if dev.has_notify_status then informed (notify_status s) sampled else sampled

-- The write to VIRTIO_PCI_QUEUE_PFN; the size of a page is 1 << VIRTIO_PCI_QUEUE_ADDR_SHIFT.
pub write_pfn : Device → Bool → Answers × Answers → ℕ × ℕ → Data → Port → PortAccess
unfolding pci_init_ioeventfd
write_pfn dev has_pio a fd d p =
    elim (pci_init_ioeventfd dev has_pio a fd p.vpci.queue_selector p) [
      | none ↦ fault
      | some p' ↦
          let t = init_vq p.vpci.queue_selector 4096 4096 (read32 d) in
          asks_device dev t (answered true d (informed t p'))
    ]

-- `virtio_pci__io_out`
pub pci_io_out :
    Device → Kernel → Bool → Bool → Answers × Answers → ℕ × ℕ → ℕ → Data → Port → PortAccess
unfolding write_status write_pfn specific_io_out
pci_io_out dev k notifies has_pio a fd port d p =
    let offset = port - p.port_addr in
    let selected = record p { vpci = record p.vpci { queue_selector = read16 d } } in
    switch offset
      ((4, answered true d (informed (set_guest_features (read32 d)) p))
        ∷ (8, write_pfn dev has_pio a fd d p)
        ∷ (14, answered true d selected)
        ∷ (
          16,
          asks_device dev (notify_vq (read16 d))
              (answered true d (informed (notify_vq (read16 d)) p)),
        )
        ∷ (18, answered true d (write_status dev (read8 d) p))
        ∷ [])
      (specific_io_out k notifies offset d p)
