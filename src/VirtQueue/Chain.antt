-- ===== src/VirtQueue/Chain.antt =====
-- The walk over a chain of descriptors in hw/virtio/core.c.
use kvmc.Prelude.{
  ℕ, zero, suc, ◌+◌, ◌<◌, ◌≡◌, ◌≢◌, refl, List, [], ◌∷◌, ◌++◌, false, none, some, arith, length,
  if◌then◌else◌, test_bit, append_assoc,
}
use mathlib.Core.List.{map}
use kvmc.Memory.{MemBank, guest_flat_to_host}
use kvmc.VirtQueue.{Desc, Iovec, Iov, VirtQueue, next_desc, grab, walk, get_head_iov, u16}

-- The descriptors of a chain, from its head on: each leads to the next, and the last to the end.
abbrev pub IsChain : (ℕ → Desc) → ℕ → ℕ → List ℕ → Type 0
IsChain desc max i [] = next_desc desc i max ≡ max
IsChain desc max i (j ∷ js) = (next_desc desc i max ≡ j) × (j ≢ max) × IsChain desc max j js

-- The buffers of some descriptors, with the host's pointers, and how many the device reads and writes.
abbrev pub buffers : List MemBank → (ℕ → Desc) → List ℕ → List Iovec
buffers banks desc =
    map (λ i. record { base = guest_flat_to_host banks (desc i).addr; len = (desc i).len })

abbrev pub count_out : (ℕ → Desc) → List ℕ → ℕ
count_out desc [] = 0
count_out desc (i ∷ is) = (if test_bit (desc i).flags 1 then 0 else 1) + count_out desc is

abbrev pub count_in : (ℕ → Desc) → List ℕ → ℕ
count_in desc [] = 0
count_in desc (i ∷ is) = (if test_bit (desc i).flags 1 then 1 else 0) + count_in desc is

abbrev behind : List MemBank → (ℕ → Desc) → List ℕ → Iov → Iov
behind banks desc is acc = record {
  iov = acc.iov ++ buffers banks desc is;
  outs = acc.outs + count_out desc is;
  ins = acc.ins + count_in desc is;
}

walk_chain :
    (js : List ℕ) (fuel : ℕ) (banks : List MemBank) (desc : ℕ → Desc) (i max : ℕ) (acc : Iov)
    → IsChain desc max i js
    → length js < fuel
    → acc.outs + length js + 1 < 65536
    → acc.ins + length js + 1 < 65536
    → walk fuel banks desc i max acc ≡ some (behind banks desc (i ∷ js) acc)
unfolding walk grab
walk_chain js zero banks desc i max acc c h ho hi = absurd (omega arith)
walk_chain [] (suc fuel) banks desc i max acc c h ho hi = ground arith
walk_chain (j ∷ js) (suc fuel) banks desc i max acc c h ho hi = ground (
  arith,
  walk_chain js fuel banks desc j max (grab banks desc i acc),
  append_assoc acc.iov (buffers banks desc (i ∷ [])) (buffers banks desc (j ∷ js)),
)

-- For a head whose descriptor is not indirect, and a chain of at most 65535 descriptors that ends,
-- `virt_queue__get_head_iov` answers the chain's buffers in order, each at the host's pointer for its address (NULL outside all
-- banks of memory), and how many are out and in, in
-- as many rounds as the chain is long.
pub get_head_iov_chain :
    (fuel head : ℕ) (js : List ℕ) (banks : List MemBank) (guest_table : ℕ → ℕ → Desc)
    (q : VirtQueue)
    → test_bit (q.desc head).flags 2 ≡ false
    → IsChain q.desc (u16 q.num) head js
    → length js < fuel
    → length js < 65535
    → get_head_iov fuel banks guest_table q head
      ≡ some (record {
        iov = buffers banks q.desc (head ∷ js);
        outs = count_out q.desc (head ∷ js);
        ins = count_in q.desc (head ∷ js);
      })
unfolding get_head_iov
get_head_iov_chain fuel head js banks guest_table q direct c h short = ground (
  arith,
  walk_chain js fuel banks q.desc head (u16 q.num) (record { iov = []; outs = 0; ins = 0 }) c h
      (omega arith) (omega arith),
)

walk_cycle :
    (P : ℕ → Type 0) (fuel : ℕ) (banks : List MemBank) (desc : ℕ → Desc) (i max : ℕ) (acc : Iov)
    → ((k : ℕ) → P k → (next_desc desc k max ≢ max) × P (next_desc desc k max))
    → P i
    → walk fuel banks desc i max acc ≡ none
unfolding walk
walk_cycle P zero banks desc i max acc c p = refl
walk_cycle P (suc fuel) banks desc i max acc c p = ground (
  arith,
  (c i p).0,
  walk_cycle P fuel banks desc (next_desc desc i max) max (grab banks desc i acc) c (c i p).1,
)

-- If the guest links descriptors, from a direct head on, so that none of a set of them leads out of
-- the set or to the end, `virt_queue__get_head_iov` does not end within any number of rounds.
get_head_iov_cycle :
    (P : ℕ → Type 0) (fuel head : ℕ) (banks : List MemBank) (guest_table : ℕ → ℕ → Desc)
    (q : VirtQueue)
    → test_bit (q.desc head).flags 2 ≡ false
    → ((k : ℕ)
        → P k
        → (next_desc q.desc k (u16 q.num) ≢ u16 q.num) × P (next_desc q.desc k (u16 q.num)))
    → P head
    → get_head_iov fuel banks guest_table q head ≡ none
unfolding get_head_iov
get_head_iov_cycle P fuel head banks guest_table q direct c p = ground (
  arith,
  walk_cycle P fuel banks q.desc head (u16 q.num) (record { iov = []; outs = 0; ins = 0 }) c p,
)
