-- ===== src/VirtioMmio.antt =====
-- hw/virtio/mmio.c: the registers of a virtio device on the memory bus. The device behind them is a
-- parameter: what its operations answer, and the bytes of its configuration; what it is told is a
-- list of calls. Reading or writing behind an array ends in `fault`.
pub mod Registers
pub mod Config
pub mod Exit
mod Tests
use kvmc.Prelude.{
  ℕ, zero, suc, ◌+◌, ◌-◌, ◌*◌, ◌%◌, ◌^◌, List, [], ◌∷◌, ◌++◌, Bool, true, false, not, Option, none,
  some, ltb, leb, ◌==◌, if◌then◌else◌, length, get_elem?, set, set_bit,
}
use Prim.Native.Nat.{bit_and}
use kvmc.Data.{Data, read32, write32}
use kvmc.Ioeventfd.{
  Ioevent, Events, Request, Answers, Result, success, failure, add_event, del_event,
}

-- `struct virtio_mmio_hdr` without its reserved words and the registers that are never read or
-- written: `host_features`, `guest_features`, `queue_pfn`, `queue_notify`, `interrupt_ack`. `magic`
-- is its four bytes as a number.
pub record Hdr : Type 0 where
  pub magic : ℕ
  pub version : ℕ
  pub device_id : ℕ
  pub vendor_id : ℕ
  pub host_features_sel : ℕ
  pub guest_features_sel : ℕ
  pub guest_page_size : ℕ
  pub queue_sel : ℕ
  pub queue_num_max : ℕ
  pub queue_num : ℕ
  pub queue_align : ℕ
  pub interrupt_state : ℕ
  pub status : ℕ

-- What the device and the port are told.
pub data Told : Type 0 where
  irq_trigger : ℕ → Told
  endianness_sampled : Told
  notify_status : ℕ → Told
  set_guest_features : ℕ → Told
  set_size_vq : (vq size : ℕ) → Told
  init_vq : (vq page_size align pfn : ℕ) → Told
  notify_vq : ℕ → Told
  notify_vq_eventfd : (vq fd : ℕ) → Told

-- `struct virtio_mmio`, of whose ioeventfds only `vq` is kept; the device's configuration; and what
-- has happened.
pub record Vmmio : Type 0 where
  pub addr : ℕ
  pub irq : ℕ
  pub hdr : Hdr
  pub ioeventfds : List ℕ
  pub config : List ℕ
  pub events : Events
  pub told : List Told

-- The device's operations: what they answer, and which are there. `none` is an access outside the
-- device's own arrays, which it makes for a queue that it does not have; `stays_inside` says which
-- calls make none.
pub record Device : Type 0 where
  pub host_features : ℕ
  pub get_pfn_vq : ℕ → Option ℕ
  pub get_size_vq : ℕ → Option ℕ
  pub stays_inside : Told → Bool
  pub has_notify_status : Bool
  pub has_notify_eventfd : Bool
  pub use_vhost : Bool

-- How an access ends: `fault` is behind an array of the transport, `device_fault` outside those of
-- the device.
pub data Outcome : Type 0 where
  done : Data → Vmmio → Outcome
  fault device_fault : Outcome

-- An operation of the device on a queue.
abbrev pub calls_device : Device → Told → Outcome → Outcome
calls_device dev t o = if dev.stays_inside t then o else device_fault

abbrev pub tell : Told → Vmmio → Vmmio
tell t m = record m { told = m.told ++ (t ∷ []) }

abbrev pub with_hdr : (Hdr → Hdr) → Vmmio → Vmmio
with_hdr f m = record m { hdr = f m.hdr }

-- `virtio_mmio_signal_vq` and `virtio_mmio_signal_config`
pub signal_vq : Vmmio → Vmmio
signal_vq m =
    tell (irq_trigger m.irq)
      (with_hdr (λ h. record h { interrupt_state = set_bit h.interrupt_state 0 }) m)

pub signal_config : Vmmio → Vmmio
signal_config m =
    tell (irq_trigger m.irq)
      (with_hdr (λ h. record h { interrupt_state = set_bit h.interrupt_state 1 }) m)

-- The address at which the guest notifies: a u32.
abbrev pub notify_addr : Vmmio → ℕ
notify_addr m = (m.addr + 0x50) % 2 ^ 32

-- The structure that `virtio_mmio_init_ioeventfd` passes on; `fd` is what `eventfd` answers.
abbrev pub ioevent_of : Vmmio → ℕ → ℕ → Ioevent
ioevent_of m vq fd = record {
  io_addr = notify_addr m;
  io_len = 4;
  fn_ptr = vq;
  fd = fd;
  datamatch = vq;
  flags = 0;
}

-- The end of `virtio_mmio_init_ioeventfd`, by the answer of `ioeventfd__add_event`.
pub tell_eventfd : Device → Result → ℕ → ℕ → Vmmio → Vmmio
tell_eventfd dev (failure n) fd vq m = m
tell_eventfd dev success fd vq m =
    if dev.has_notify_eventfd then tell (notify_vq_eventfd vq fd) m else m

-- `virtio_mmio_init_ioeventfd`; VIRTIO_MMIO_MAX_VQ is the length of `ioeventfds`. Its answer is not
-- used by its caller.
pub init_ioeventfd : Device → Bool → Answers → ℕ → ℕ → Vmmio → Option Vmmio
init_ioeventfd dev has_pio a fd vq m =
    let polled : Request = record { pio = false; user_poll = not dev.use_vhost } in
    let (r, e, events) = add_event has_pio a polled (ioevent_of m vq fd) m.events in
    let added = record m { ioeventfds = set m.ioeventfds vq vq; events = events } in
    if ltb vq (length m.ioeventfds) then some (tell_eventfd dev r fd vq added) else none

-- The loop of `virtio_mmio_device_specific` for a write, from byte `i` on: each byte is the first of
-- the access plus its index, as a u8.
pub write_config : Data → ℕ → ℕ → ℕ → List ℕ → Option (List ℕ)
write_config d offset i zero config = some config
write_config d offset i (suc n) config =
    let rest = write_config d offset (i + 1) n (set config (offset + i) ((d 0 + i) % 256)) in
    if ltb (offset + i) (length config) then rest else none

-- For a read.
pub read_config : Data → ℕ → ℕ → ℕ → List ℕ → Option Data
read_config d offset i zero config = some d
read_config d offset i (suc n) config = elim (get_elem? config (offset + i)) [
  | none ↦ none
  | some b ↦ read_config (λ k. if k == i then b else d k) offset (i + 1) n config
]

-- `virtio_mmio_device_specific`
pub device_specific : ℕ → Data → ℕ → Bool → Vmmio → Outcome
device_specific offset d len is_write m =
    if is_write
    then elim (write_config d offset 0 len m.config) [
      | none ↦ fault
      | some config ↦ done d (record m { config = config })
    ]
    else elim (read_config d offset 0 len m.config) [ none ↦ fault | some d' ↦ done d' m ]

-- A `switch` with a `break` in each case, and its otherwise.
abbrev pub switch {ℓ} : {A : Type ℓ} → ℕ → List (ℕ × A) → A → A
switch n [] otherwise = otherwise
switch n ((m, a) ∷ cases) otherwise = if n == m then a else switch n cases otherwise

-- `virtio_mmio_config_in`: the value that a register is read as, `none` where the device leaves its
-- arrays; or that the register is not one that is read.
pub data Register : Type 0 where
  reads : Option ℕ → Register
  not_read : Register

pub register_value : Device → ℕ → Hdr → Register
register_value dev offset h =
    let cases =
      (0x000, reads (some h.magic))
      ∷ (0x004, reads (some h.version))
      ∷ (0x008, reads (some h.device_id))
      ∷ (0x00c, reads (some h.vendor_id))
      ∷ (0x070, reads (some h.status))
      ∷ (0x060, reads (some h.interrupt_state))
      ∷ (0x010, reads (some (if h.host_features_sel == 0 then dev.host_features else 0)))
      ∷ (0x040, reads (dev.get_pfn_vq h.queue_sel))
      ∷ (0x034, reads (dev.get_size_vq h.queue_sel))
      ∷ [] in
    switch offset cases not_read

-- What comes of the register's value.
pub read_register : Register → Data → Vmmio → Outcome
read_register not_read d m = done d m
read_register (reads none) d m = device_fault
read_register (reads (some v)) d m = done (write32 d v) m

pub config_in : Device → ℕ → Data → Vmmio → Outcome
unfolding register_value read_register
config_in dev addr d m = read_register (register_value dev addr m.hdr) d m

-- The write to VIRTIO_MMIO_STATUS; the device is told a u8.
pub set_status : Device → ℕ → Vmmio → Vmmio
set_status dev v m =
    let stored = with_hdr (λ h. record h { status = v }) m in
    let sampled = if v == 0 then tell endianness_sampled stored else stored in
    if dev.has_notify_status then tell (notify_status (v % 256)) sampled else sampled

-- The write to VIRTIO_MMIO_QUEUE_PFN.
pub set_pfn : Device → Bool → Answers → ℕ → Data → Vmmio → Outcome
unfolding init_ioeventfd
set_pfn dev has_pio a fd d m =
    let h = m.hdr in
    elim (init_ioeventfd dev has_pio a fd h.queue_sel m) [
      | none ↦ fault
      | some m' ↦
          let t = init_vq h.queue_sel h.guest_page_size h.queue_align (read32 d) in
          calls_device dev t (done d (tell t m'))
    ]

-- The cases of `virtio_mmio_config_out`.
pub write_cases : Device → Bool → Answers → ℕ → Data → Vmmio → List (ℕ × Outcome)
unfolding set_status set_pfn
write_cases dev has_pio a fd d m =
    let v = read32 d in
    let h = m.hdr in
    let changed = λ (h' : Hdr). done d (record m { hdr = h' }) in
    (0x014, changed (record h { host_features_sel = v }))
    ∷ (0x024, changed (record h { guest_features_sel = v }))
    ∷ (0x030, changed (record h { queue_sel = v }))
    ∷ (0x070, done d (set_status dev v m))
    ∷ (0x020, done d (if h.guest_features_sel == 0 then tell (set_guest_features v) m else m))
    ∷ (0x028, changed (record h { guest_page_size = v }))
    ∷ (
      0x038,
      calls_device dev (set_size_vq h.queue_sel v) (
          done d
            (tell (set_size_vq h.queue_sel v) (with_hdr (λ h'. record h' { queue_num = v }) m))),
    )
    ∷ (0x03c, changed (record h { queue_align = v }))
    ∷ (0x040, set_pfn dev has_pio a fd d m)
    ∷ (0x050, calls_device dev (notify_vq v) (done d (tell (notify_vq v) m)))
    ∷ (0x064, changed (record h { interrupt_state = bit_and h.interrupt_state (2 ^ 32 - 1 - v) }))
    ∷ []

-- `virtio_mmio_config_out`
pub config_out : Device → Bool → Answers → ℕ → ℕ → Data → Vmmio → Outcome
unfolding write_cases
config_out dev has_pio a fd offset d m = switch offset (write_cases dev has_pio a fd d m) (done d m)

-- `virtio_mmio_mmio_callback`; VIRTIO_MMIO_CONFIG is 0x100.
pub mmio_callback : Device → Bool → Answers → ℕ → ℕ → Data → ℕ → Bool → Vmmio → Outcome
unfolding device_specific
mmio_callback dev has_pio a fd addr d len is_write m =
    let offset = (addr + 2 ^ 64 - m.addr) % 2 ^ 32 in
    if leb 0x100 offset
    then device_specific (offset - 0x100) d len is_write m
    else (if is_write then config_out dev has_pio a fd offset d m else config_in dev offset d m)

-- `virtio_mmio_init`, but the registrations: the structure that it fills.
abbrev pub init_hdr : ℕ → Hdr
init_hdr subsys_id = record {
  magic = 0x74726976;
  version = 1;
  device_id = subsys_id;
  vendor_id = 0x434d564b;
  host_features_sel = 0;
  guest_features_sel = 0;
  guest_page_size = 0;
  queue_sel = 0;
  queue_num_max = 256;
  queue_num = 0;
  queue_align = 0;
  interrupt_state = 0;
  status = 0;
}

-- The loop of `virtio_mmio_exit`, from queue `i` on, for `n` queues.
pub del_events : ℕ → ℕ → ℕ → Events → Events
del_events addr i zero s = s
del_events addr i (suc n) s = del_events addr (i + 1) n (del_event addr i s).1

-- `virtio_mmio_exit` behind the removal of the region.
pub exit_events : Vmmio → Vmmio
unfolding del_events
exit_events m = record m { events = del_events (notify_addr m) 0 (length m.ioeventfds) m.events }
