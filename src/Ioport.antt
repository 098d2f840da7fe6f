-- ===== src/Ioport.antt =====
-- hw/ioport.c: the ports that devices have registered, and the emulation of a port access. What
-- an operation does is a function on the machine's state and the memory at `data`; `priv` is part
-- of it. The lock is whether the write lock is still held when a call returns. `malloc` answers an
-- address, or `none` for NULL.
pub mod Dispatch
pub mod Locks
mod Tests
use kvmc.Prelude.{
  ℕ, zero, suc, ◌+◌, ◌*◌, ◌%◌, List, [], ◌∷◌, Bool, true, false, not, Option, none, some, ◌==◌,
  if◌then◌else◌,
}
use kvmc.RbTree.{Tree, leaf, Balance}
use kvmc.Interval.{IntNode, IntBalance, search_single, insert, int_erase}
use kvmc.Devices.{
  Devices, DeviceHeader, Numbered, IntResult, ok, err, enomem, eexist, enoent, register_device,
}
use kvmc.Data.{Data}

-- A handler: port, offset of the access in the buffer, size, state and buffer.
abbrev pub Access : Type 0 → Type 0
Access S = ℕ → ℕ → ℕ → S × Data → Bool × S × Data

-- `struct ioport_operations`; a handler may be NULL.
pub record Ops (S : Type 0) : Type 0 where
  pub io_in : Option (Access S)
  pub io_out : Option (Access S)

-- `struct ioport` without its node, and its address.
pub record Ioport (S : Type 0) : Type 0 where
  pub ops : Ops S
  pub addr : ℕ

pub record IoState (S : Type 0) : Type 0 where
  pub tree : Tree (IntNode (Ioport S))
  pub free_io_port_idx : ℕ
  pub devices : Devices
  pub write_locked : Bool
  pub freed : List ℕ

-- The header in the entry; bus 2 is DEVICE_BUS_IOPORT.
abbrev header_at : ℕ → DeviceHeader
header_at addr = record {
  bus_type = 2;
  dev_num = 0;
  irq_line = 0;
  irq_pin = 0;
  irq_type = 0;
  owner = addr;
}

module _ {S : Type 0} where
  -- `ioport__find_free_port`: IOPORT_START + idx * IOPORT_SIZE as a u16.
  pub find_free_port : IoState S → ℕ × IoState S
  find_free_port s = (
    (0x6200 + s.free_io_port_idx * 0x400) % 65536,
    record s { free_io_port_idx = (s.free_io_port_idx + 1) % 65536 },
  )

  -- The entry that `ioport__register` fills in.
  abbrev pub entry_at : ℕ → ℕ → Ops S → ℕ → IntNode (Ioport S)
  entry_at port count ops addr = record {
    low = port;
    high = port + count;
    payload = record { ops = ops; addr = addr };
  }

  -- The choice between `io_in` and `io_out` in the loop of `kvm__emulate_io`, for one element;
  -- `none` where the handler is missing, so that `ret` stays. Direction 0 is KVM_EXIT_IO_IN and
  -- 1 is KVM_EXIT_IO_OUT.
  pub handler : Ops S → ℕ → Option (Access S)
  handler ops direction =
      if direction == 0 then ops.io_in else if direction == 1 then ops.io_out else none

  -- The loop over `count` elements, `ptr` going on by `size`.
  pub emulate_loop : Option (Access S) → ℕ → ℕ → ℕ → ℕ → Bool → S × Data → Bool × S × Data
  emulate_loop h port size zero ptr ret (m, d) = (ret, m, d)
  emulate_loop none port size (suc n) ptr ret md = emulate_loop none port size n (ptr + size) ret md
  emulate_loop (some f) port size (suc n) ptr ret md =
      let (ret', m, d) = f port ptr size md in
      emulate_loop (some f) port size n (ptr + size) ret' (m, d)

  -- `kvm__emulate_io`; `debug` is `cfg.ioport_debug`.
  pub emulate_io : IoState S → Bool → ℕ → ℕ → ℕ → ℕ → S × Data → Bool × S × Data
  unfolding handler
  emulate_io s debug port direction size count (m, d) = elim (search_single s.tree port) [
    | none ↦ (not debug, m, d)
    | some entry ↦
        let (ret, m', d') =
          emulate_loop (handler entry.payload.ops direction) port size count 0 false (m, d) in
        (if ret then true else not debug, m', d')
  ]

module _ {S : Type 0} (b : IntBalance (Ioport S)) (db : Balance DeviceHeader Numbered) where
  -- "ioport re-registered": the entry that holds the port leaves the tree.
  pub drop_at : IoState S → ℕ → IoState S
  drop_at s port = elim (search_single s.tree port) [
    | none ↦ s
    | some entry ↦ record s { tree = int_erase b s.tree entry }
  ]

  -- From the allocation on. A failed allocation returns with the lock held.
  add_entry : ℕ → Ops S → ℕ → Option ℕ → IoState S → IntResult × IoState S
  add_entry port ops count none s = (err enomem, s)
  add_entry port ops count (some addr) s = elim (insert b s.tree (entry_at port count ops addr)) [
    | none ↦ (err eexist, record s { freed = addr ∷ s.freed; write_locked = false })
    | some t ↦ (
      ok port,
      record s {
        tree = t;
        devices = (register_device db (header_at addr) s.devices).1;
        write_locked = false;
      },
    )
  ]

  register_at : ℕ → Ops S → ℕ → Option ℕ → IoState S → IntResult × IoState S
  unfolding drop_at add_entry
  register_at port ops count malloc s = add_entry port ops count malloc (drop_at s port)

  -- `ioport__register`; port 0xffff is IOPORT_EMPTY.
  pub register : ℕ → Ops S → ℕ → Option ℕ → IoState S → IntResult × IoState S
  unfolding register_at find_free_port
  register port ops count malloc s =
      let locked = record s { write_locked = true } in
      if port == 65535
      then (let (free, s') = find_free_port locked in register_at free ops count malloc s')
      else register_at port ops count malloc locked

  -- `ioport__unregister`
  pub unregister : ℕ → IoState S → IntResult × IoState S
  unregister port s = elim (search_single s.tree port) [
    | none ↦ (err enoent, record s { write_locked = false })
    | some entry ↦ (
      ok 0,
      record s {
        tree = int_erase b s.tree entry;
        freed = entry.payload.addr ∷ s.freed;
        write_locked = false;
      },
    )
  ]
