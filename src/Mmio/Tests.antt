-- ===== src/Mmio/Tests.antt =====
-- The theorems of hw/mmio.c at a small table of regions. The machine's state is a number.
use kvmc.Prelude.{ℕ, ◌+◌, ◌≡◌, refl, [], true, arith}
use kvmc.RbTree.{leaf, node, black}
use kvmc.Interval.{IntNode, search_single}
use kvmc.Mmio.{MmioFn, MmioState, mapping, emulate_mmio}
use kvmc.Mmio.Dispatch.{emulate_mmio_lem}

abbrev counter : MmioFn ℕ
counter addr len is_write (m, d) = (m + len, d)

abbrev config : IntNode (MmioFn ℕ)
config = mapping 0x1000 0x100 counter

abbrev table : MmioState ℕ
table = record { tree = node black leaf config leaf; zones = [] }

emulate_mmio_lem_example : emulate_mmio table 0x10fe 4 true (0, λ i. 0) ≡ (true, 0, λ i. 0)
unfolding search_single
emulate_mmio_lem_example =
    emulate_mmio_lem table 0x10fe 4 true 0 (λ i. 0) config (omega arith) (omega arith) (omega arith)
      refl
