-- ===== src/Devices.antt =====
-- src/devices.c with `irq__alloc_line` of src/irq.c, `pci__assign_irq` of hw/pci.c and
-- `virtio_mmio_assign_irq` of hw/virtio/mmio.c: the devices of each bus, in trees by number. A
-- header carries the fields of the structure around it that registration writes, and the address
-- of that structure. The trees' balance is that of RbTree.antt.
pub mod Spine
use kvmc.Prelude.{
  ℕ, ◌+◌, ◌%◌, ◌≤◌, List, [], ◌∷◌, Bool, Option, none, some, ltb, leb, ◌==◌, if◌then◌else◌,
  get_elem?, set, replicate,
}
use kvmc.RbTree.{Color, red, Tree, leaf, node, first, Balance}

pub data Errno : Type 0 where
  enomem eexist enoent einval : Errno
  -- What a system call left in `errno`.
  os : ℕ → Errno

-- An `int` that is negative on failure.
pub data IntResult : Type 0 where
  ok : ℕ → IntResult
  err : Errno → IntResult

-- `struct device_header`
pub record DeviceHeader : Type 0 where
  pub bus_type : ℕ
  pub dev_num : ℕ
  pub irq_line : ℕ
  pub irq_pin : ℕ
  pub irq_type : ℕ
  pub owner : ℕ

-- `struct device_bus`
pub record DeviceBus : Type 0 where
  pub root : Tree DeviceHeader
  pub dev_num : ℕ

-- `device_trees`, of DEVICE_BUS_MAX buses (0 is PCI, 1 MMIO, 2 IOPORT), and `next_line`.
pub record Devices : Type 0 where
  pub device_trees : List DeviceBus
  pub next_line : ℕ

-- KVM_IRQ_OFFSET is the machine's first line.
pub no_devices : ℕ → Devices
no_devices irq_offset = record {
  device_trees = replicate 3 (record { root = leaf; dev_num = 0 });
  next_line = irq_offset;
}

-- Numbers that rise along the sequence, from `n` on.
abbrev pub Rising : ℕ → List DeviceHeader → Type 0
Rising n [] = Unit
Rising n (z ∷ zs) = (n ≤ z.dev_num) × Rising (z.dev_num + 1) zs

-- In such a sequence the number tells a header from all others.
abbrev pub Numbered : DeviceHeader → List DeviceHeader → Type 0
Numbered x xs = Rising 0 xs

-- `irq__alloc_line`: the line, and `next_line` afterwards, a u8.
pub alloc_line : Devices → ℕ × Devices
alloc_line d = (d.next_line, record d { next_line = (d.next_line + 1) % 256 })

-- `pci__assign_irq` on bus 0, `virtio_mmio_assign_irq` on bus 1.
pub assign_irq : DeviceHeader → Devices → DeviceHeader × Devices
unfolding alloc_line
assign_irq dev d =
    let (line, d') = alloc_line d in
    if dev.bus_type == 0
    then (
      record dev {
        irq_pin = 1;
        irq_line = line;
        irq_type = if dev.irq_type == 0 then 1 else dev.irq_type;
      },
      d',
    )
    else (if dev.bus_type == 1 then (record dev { irq_line = line }, d') else (dev, d))

grow_left :
    Color
    → DeviceHeader
    → Tree DeviceHeader
    → Option (Tree DeviceHeader)
    → Option (Tree DeviceHeader)
grow_left c y r none = none
grow_left c y r (some l) = some (node c l y r)

grow_right :
    Color
    → Tree DeviceHeader
    → DeviceHeader
    → Option (Tree DeviceHeader)
    → Option (Tree DeviceHeader)
grow_right c l y none = none
grow_right c l y (some r) = some (node c l y r)

-- The descent by `dev_num`; `none` is -EEXIST.
pub link_device : Tree DeviceHeader → DeviceHeader → Option (Tree DeviceHeader)
unfolding grow_left grow_right
link_device leaf x = some (node red leaf x leaf)
link_device (node c l y r) x =
    let left = grow_left c y r (link_device l x) in
    let right = grow_right c l y (link_device r x) in
    if ltb x.dev_num y.dev_num then left else if ltb y.dev_num x.dev_num then right else none

-- The search of `device__find_dev` in one tree.
unfoldable pub find_number : Tree DeviceHeader → ℕ → Option DeviceHeader
find_number leaf n = none
find_number (node c l x r) n =
    let left = find_number l n in
    let right = find_number r n in
    if ltb n x.dev_num then left else if ltb x.dev_num n then right else some x

-- `device__find_dev` for a bus in range.
unfoldable pub find_dev : Devices → ℕ → ℕ → Option DeviceHeader
find_dev d bus_type dev_num = elim (get_elem? d.device_trees bus_type) [
  | none ↦ none
  | some bus ↦ find_number bus.root dev_num
]

-- `device__first_dev`
pub first_dev : Devices → ℕ → Option DeviceHeader
first_dev d bus_type = elim (get_elem? d.device_trees bus_type) [
  | none ↦ none
  | some bus ↦ first bus.root
]

module _ (b : Balance DeviceHeader Numbered) where
  open b use {insert_color, erase}

  register_on : DeviceHeader → DeviceBus → Devices → IntResult × Devices
  register_on dev bus d =
      let numbered = record dev { dev_num = bus.dev_num } in
      let counted = record bus { dev_num = bus.dev_num + 1 } in
      let (ready, d') = assign_irq numbered d in
      elim (link_device bus.root ready) [
        | none ↦ (err eexist, record d' { device_trees = set d'.device_trees dev.bus_type counted })
        | some t ↦ (
          ok 0,
          record d' {
            device_trees =
                set d'.device_trees dev.bus_type
                  (record { root = insert_color ready t; dev_num = bus.dev_num + 1 });
          },
        )
      ]

  -- `device__register`
  pub register_device : DeviceHeader → Devices → IntResult × Devices
  unfolding register_on
  register_device dev d = elim (get_elem? d.device_trees dev.bus_type) [
    | none ↦ (err einval, d)
    | some bus ↦ register_on dev bus d
  ]

  -- `device__unregister`
  pub unregister_device : DeviceHeader → Devices → Devices
  unregister_device dev d = elim (get_elem? d.device_trees dev.bus_type) [
    | none ↦ d
    | some bus ↦ record d {
      device_trees = set d.device_trees dev.bus_type (record bus { root = erase dev bus.root });
    }
  ]
