-- ===== src/VirtioMmio/Tests.antt =====
-- A virtio device on the memory bus, with four bytes of configuration.
use kvmc.Prelude.{
  List, get_or, ltb, some, none, if◌then◌else◌, ℕ, ◌≡◌, refl, [], ◌∷◌, true, false, none, ◌==◌,
  if◌then◌else◌, replicate, arith,
}
use kvmc.Data.{Data}
use kvmc.Ioeventfd.{Ioevent, Answers}
use kvmc.VirtioMmio.{Vmmio, Device, done, init_hdr, mmio_callback, exit_events}
use kvmc.VirtioMmio.Config.{stored, config_write_lem}
use kvmc.VirtioMmio.Exit.{exit_events_lem}

abbrev device : Device
device = record {
  host_features = 0x10000000;
  get_pfn_vq = λ vq. if ltb vq 3 then some 0 else none;
  get_size_vq = λ vq. some 128;
  stays_inside = λ t. true;
  has_notify_status = true;
  has_notify_eventfd = false;
  use_vhost = false;
}

abbrev answers : Answers
answers = record { malloc = true; ioctl = none; epoll = none }

abbrev event : ℕ → ℕ → Ioevent
event addr vq = record {
  io_addr = addr;
  io_len = 4;
  fn_ptr = vq;
  fd = 9;
  datamatch = vq;
  flags = 0;
}

abbrev net : Vmmio
net = record {
  addr = 0xd2000000;
  irq = 5;
  hdr = record (init_hdr 1) { queue_sel = 40 };
  ioeventfds = replicate 32 0;
  config = 1 ∷ 2 ∷ 3 ∷ 4 ∷ [];
  events = record {
    avail = true;
    used = event 0xd2000050 0 ∷ event 0xd2000250 0 ∷ event 0xd2000050 1 ∷ [];
    calls = [];
  };
  told = [];
}

-- The bytes 0x34 and 0x12.
abbrev word : Data
word i = if i == 0 then 0x34 else (if i == 1 then 0x12 else 0)

abbrev pfn : ℕ
pfn = 0x40

config_write_lem_example :
    (after : List ℕ) × (mmio_callback device true answers 9 0xd2000101 word 2 true net
      ≡ done word (record net { config = after }))
    × ((k : ℕ) → get_or after k 0 ≡ stored word 1 0 2 (1 ∷ 2 ∷ 3 ∷ 4 ∷ []) k)
config_write_lem_example =
    config_write_lem device true answers 9 0xd2000101 word 2 net (omega arith) (omega arith)

exit_events_lem_example : (exit_events net).events.used ≡ event 0xd2000250 0 ∷ []
exit_events_lem_example = exit_events_lem net refl (omega arith)
