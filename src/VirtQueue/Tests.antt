-- ===== src/VirtQueue/Tests.antt =====
-- The theorems of the virtio queue at small rings.
use kvmc.Prelude.{
  List, none, ℕ, ◌+◌, ◌-◌, ◌≡◌, ◌≢◌, refl, [], ◌∷◌, some, Bool, true, arith, ltb, ◌==◌,
  if◌then◌else◌,
}
use kvmc.Memory.{MemBank, guest_flat_to_host}
use kvmc.VirtQueue.{VirtQueue, Desc, UsedElem, u16, used_idx_advance, next_desc, get_head_iov}
use kvmc.VirtQueue.Used.{set_each, set_offsets, set_offsets-set_each}
use kvmc.VirtQueue.Chain.{get_head_iov_chain}
use kvmc.VirtQueue.Signal.{PassesEvent}

-- Descriptor 0 is read, and leads to descriptor 1, which is written; descriptor 2 leads to itself.
abbrev table : ℕ → Desc
table i =
    if i == 0
    then record { addr = 0x1000; len = 16; flags = 1; next = 1 }
    else (if i == 1
        then record { addr = 0x2000; len = 512; flags = 2; next = 0 }
        else record { addr = 0x3000; len = 1; flags = 1; next = 2 })

-- The page at 0x1000, without the one behind it.
abbrev ram : List MemBank
ram = record { guest_phys_addr = 0x1000; host_addr = 0x9000; size = 0x1000; type = 1 } ∷ []

abbrev elem : UsedElem
elem = record { id = 0; len = 512 }

abbrev ring : VirtQueue
ring = record {
  num = 4;
  desc = table;
  has_avail = true;
  avail_flags = 0;
  avail_idx = 1;
  avail_ring = λ i. 0;
  used_event = 0xffff;
  used_idx = 1;
  used_ring = λ i. elem;
  avail_event = 0;
  last_avail_idx = 0;
  last_used_signalled = 0xfffe;
  use_event_idx = true;
}

set_offsets-set_each_example :
    used_idx_advance 2 (set_offsets (elem ∷ elem ∷ []) 0 ring) ≡ set_each (elem ∷ elem ∷ []) ring
set_offsets-set_each_example = set_offsets-set_each (elem ∷ elem ∷ []) ring (omega arith)

get_head_iov_chain_example :
    get_head_iov 4 ram (λ a i. table i) ring 0
    ≡ some (record {
      iov = record { base = some 0x9000; len = 16 } ∷ record { base = none; len = 512 } ∷ [];
      outs = 1;
      ins = 1;
    })
unfolding next_desc guest_flat_to_host
get_head_iov_chain_example =
    get_head_iov_chain 4 0 (1 ∷ []) ram (λ a i. table i) ring refl (refl, omega arith, refl)
      (omega arith) (omega arith)

itself : (k : ℕ) → k ≡ 2 → (next_desc table k 4 ≢ 4) × (next_desc table k 4 ≡ 2)
unfolding next_desc
itself k e = rw e (omega arith, refl)

-- The formula of the virtio specification.
abbrev passes : ℕ → ℕ → ℕ → Bool
passes event new old = ltb (u16 (new + 65536 - event + 65536 - 1)) (u16 (new + 65536 - old))

passes_lem : PassesEvent passes
passes_lem old j d = ground arith
