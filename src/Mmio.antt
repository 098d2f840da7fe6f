-- ===== src/Mmio.antt =====
-- hw/mmio.c: the memory-mapped regions that devices have registered, and the emulation of an
-- access to one. A handler is a function on the machine's state and the access's buffer. `malloc`
-- answers whether memory was given, and the coalescing ioctl `none` or the `errno` it failed with.
pub mod Dispatch
mod Tests
use kvmc.Prelude.{ℕ, ◌+◌, ◌%◌, ◌^◌, List, ◌∷◌, Bool, true, false, Option, none, some, if◌then◌else◌}
use kvmc.RbTree.{Tree}
use kvmc.Interval.{IntNode, IntBalance, search_single, search_range, insert, int_erase}
use kvmc.Devices.{IntResult, ok, err, enomem, eexist, os}
use kvmc.Data.{Data}

-- `mmio_fn` with its `ptr`: address, length, whether it is a write, state and buffer.
abbrev pub MmioFn : Type 0 → Type 0
MmioFn S = ℕ → ℕ → Bool → S × Data → S × Data

-- The zones that the kernel was told of, address and size.
pub data ZoneCall : Type 0 where
  register_zone unregister_zone : ℕ → ℕ → ZoneCall

pub record MmioState (S : Type 0) : Type 0 where
  pub tree : Tree (IntNode (MmioFn S))
  pub zones : List ZoneCall

-- The node of a region; the end is a u64.
abbrev pub mapping : {S : Type 0} → ℕ → ℕ → MmioFn S → IntNode (MmioFn S)
mapping phys_addr len f = record { low = phys_addr; high = (phys_addr + len) % 2 ^ 64; payload = f }

module _ {S : Type 0} where
  -- `kvm__emulate_mmio`, which always answers true.
  pub emulate_mmio : MmioState S → ℕ → ℕ → Bool → S × Data → Bool × S × Data
  emulate_mmio s phys_addr len is_write (m, d) =
      elim (search_range s.tree phys_addr ((phys_addr + len) % 2 ^ 64)) [
        | none ↦ (true, m, d)
        | some region ↦
            let (m', d') = region.payload phys_addr len is_write (m, d) in (true, m', d')
      ]

module _ {S : Type 0} (b : IntBalance (MmioFn S)) where
  -- The registration in the tree, behind the ioctl.
  map_region : ℕ → ℕ → MmioFn S → MmioState S → IntResult × MmioState S
  map_region phys_addr len f s = elim (insert b s.tree (mapping phys_addr len f)) [
    | none ↦ (err eexist, s)
    | some t ↦ (ok 0, record s { tree = t })
  ]

  coalesce_zone : ℕ → ℕ → MmioFn S → Option ℕ → MmioState S → IntResult × MmioState S
  unfolding map_region
  coalesce_zone phys_addr len f none s =
      map_region phys_addr len f (record s { zones = register_zone phys_addr len ∷ s.zones })
  coalesce_zone phys_addr len f (some errno) s = (err (os errno), s)

  -- `kvm__register_mmio`
  pub register_mmio :
      ℕ
      → ℕ
      → Bool
      → MmioFn S
      → (malloc : Bool) (ioctl : Option ℕ) → MmioState S
      → IntResult × MmioState S
  unfolding map_region coalesce_zone
  register_mmio phys_addr len coalesce f malloc ioctl s =
      if malloc
      then (if coalesce
          then coalesce_zone phys_addr len f ioctl s
          else map_region phys_addr len f s)
      else (err enomem, s)

  -- `kvm__deregister_mmio`
  pub deregister_mmio : ℕ → MmioState S → Bool × MmioState S
  deregister_mmio phys_addr s = elim (search_single s.tree phys_addr) [
    | none ↦ (false, s)
    | some region ↦ (
      true,
      record s { tree = int_erase b s.tree region; zones = unregister_zone phys_addr 1 ∷ s.zones },
    )
  ]
