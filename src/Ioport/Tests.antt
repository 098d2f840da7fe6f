-- ===== src/Ioport/Tests.antt =====
-- The theorems of hw/ioport.c at a small table of ports. The machine's state is a number that the
-- handlers count up.
use kvmc.Prelude.{ℕ, ◌+◌, [], none, some, true, false}
use kvmc.RbTree.{leaf, node, black}
use kvmc.Interval.{IntNode}
use kvmc.Interval.Spine.{spine_balance}
use kvmc.Devices.{no_devices}
use kvmc.Devices.Spine.{chain_balance}
use kvmc.Ioport.{Ioport, IoState, Ops, Access, entry_at, register}

abbrev counter : Access ℕ
counter port ptr size (m, d) = (true, m + 1, d)

abbrev ops : Ops ℕ
ops = record { io_in = some counter; io_out = none }

abbrev uart : IntNode (Ioport ℕ)
uart = entry_at 0x3f8 8 ops 1

abbrev table : IoState ℕ
table = record {
  tree = node black leaf uart leaf;
  free_io_port_idx = 0;
  devices = no_devices 5;
  write_locked = false;
  freed = [];
}

abbrev with_rtc : IoState ℕ
with_rtc = (register spine_balance chain_balance 0x70 ops 2 (some 2) table).1
