-- ===== src/VirtQueue.antt =====
-- The virtio queue of include/kvm/virtio.h and hw/virtio/core.c. The rings in the guest's memory
-- are fields of the queue, as the host reads and writes them; the guest and the host have the same
-- byte order (VIRTIO_RING_ENDIAN is the host's), and the barriers are not modelled.
pub mod Used
pub mod Chain
pub mod Signal
mod Tests
use kvmc.Prelude.{
  ℕ, zero, suc, ◌+◌, ◌-◌, ◌/◌, ◌%◌, ◌^◌, List, [], ◌∷◌, ◌++◌, Bool, true, false, not, Option, none,
  some, ltb, ◌==◌, if◌then◌else◌, set, min, test_bit,
}
use kvmc.Memory.{MemBank, guest_flat_to_host}

-- `struct vring_desc`. Bits of `flags`: 0 NEXT, 1 WRITE, 2 INDIRECT.
pub record Desc : Type 0 where
  pub addr : ℕ
  pub len : ℕ
  pub flags : ℕ
  pub next : ℕ

-- `struct vring_used_elem`
pub record UsedElem : Type 0 where
  pub id : ℕ
  pub len : ℕ

-- `struct iovec`; a pointer is an address of the host, or NULL.
pub record Iovec : Type 0 where
  pub base : Option ℕ
  pub len : ℕ

-- `struct virt_queue` with its rings. `has_avail` is whether `vring.avail` is set.
pub record VirtQueue : Type 0 where
  pub num : ℕ
  pub desc : ℕ → Desc
  pub has_avail : Bool
  pub avail_flags : ℕ
  pub avail_idx : ℕ
  pub avail_ring : ℕ → ℕ
  pub used_event : ℕ
  pub used_idx : ℕ
  pub used_ring : ℕ → UsedElem
  pub avail_event : ℕ
  pub last_avail_idx : ℕ
  pub last_used_signalled : ℕ
  pub use_event_idx : Bool

abbrev pub u16 : ℕ → ℕ
u16 n = n % 65536

-- `virt_queue__pop`: the head of the next request.
pub pop : VirtQueue → ℕ × VirtQueue
pop q = (
  q.avail_ring (q.last_avail_idx % q.num),
  record q { last_avail_idx = u16 (q.last_avail_idx + 1) },
)

-- `virt_queue__available`
pub available : VirtQueue → Bool × VirtQueue
available q =
    if not q.has_avail
    then (false, q)
    else (let told = if q.use_event_idx then record q { avail_event = q.last_avail_idx } else q in
        (not (q.avail_idx == q.last_avail_idx), told))

-- `virt_queue__used_idx_advance`
pub used_idx_advance : ℕ → VirtQueue → VirtQueue
used_idx_advance jump q = record q { used_idx = u16 (q.used_idx + jump) }

-- `virt_queue__set_used_elem_no_update`
pub set_used_elem_no_update : ℕ → ℕ → ℕ → VirtQueue → VirtQueue
set_used_elem_no_update head len offset q =
    let slot = u16 (q.used_idx + offset) % q.num in
    let elem : UsedElem = record { id = head; len = len } in
    record q { used_ring = λ i. if i == slot then elem else q.used_ring i }

-- `virt_queue__set_used_elem`
pub set_used_elem : ℕ → ℕ → VirtQueue → VirtQueue
set_used_elem head len q = used_idx_advance 1 (set_used_elem_no_update head len 0 q)

-- `next_desc`, over the table `desc`; `max` means the end of the chain.
pub next_desc : (ℕ → Desc) → ℕ → ℕ → ℕ
next_desc desc i max = if test_bit (desc i).flags 0 then min (desc i).next max else max

-- What a walk has collected: the buffers in order, and how many of each direction.
pub record Iov : Type 0 where
  pub iov : List Iovec
  pub outs : ℕ
  pub ins : ℕ

-- The body of the walk: the descriptor's buffer goes to the place `outs + ins`, the end of the list
-- as long as neither count wraps, and the count of its direction goes up.
pub grab : List MemBank → (ℕ → Desc) → ℕ → Iov → Iov
grab banks desc i acc = record {
  iov =
      acc.iov
      ++ (record { base = guest_flat_to_host banks (desc i).addr; len = (desc i).len } ∷ []);
  outs = if test_bit (desc i).flags 1 then acc.outs else u16 (acc.outs + 1);
  ins = if test_bit (desc i).flags 1 then u16 (acc.ins + 1) else acc.ins;
}

-- The loop of `virt_queue__get_head_iov`, on fuel; `none` is a walk that has not ended.
pub walk : ℕ → List MemBank → (ℕ → Desc) → ℕ → ℕ → Iov → Option Iov
walk zero banks desc i max acc = none
walk (suc fuel) banks desc i max acc =
    let next = next_desc desc i max in
    let rest = walk fuel banks desc next max (grab banks desc i acc) in
    if next == max then some (grab banks desc i acc) else rest

-- `virt_queue__get_head_iov`. An indirect descriptor leads to a table of its own, which
-- `guest_table` reads at a guest's address; a descriptor has 16 bytes.
pub get_head_iov : ℕ → List MemBank → (ℕ → ℕ → Desc) → VirtQueue → ℕ → Option Iov
get_head_iov fuel banks guest_table q head =
    let none_yet : Iov = record { iov = []; outs = 0; ins = 0 } in
    if test_bit (q.desc head).flags 2
    then walk fuel banks (guest_table (q.desc head).addr) 0 (u16 ((q.desc head).len / 16)) none_yet
    else walk fuel banks q.desc head (u16 q.num) none_yet

-- `virt_queue__get_iov`
pub get_iov : ℕ → List MemBank → (ℕ → ℕ → Desc) → VirtQueue → ℕ × Option Iov × VirtQueue
get_iov fuel banks guest_table q =
    let (head, q') = pop q in (head, get_head_iov fuel banks guest_table q' head, q')

-- `virtio_queue__should_signal`; `need_event` is `vring_need_event` of the system's header, with the
-- arguments event, new and old index. Bit 0 of the flags is VRING_AVAIL_F_NO_INTERRUPT.
pub should_signal : (ℕ → ℕ → ℕ → Bool) → VirtQueue → Bool × VirtQueue
should_signal need_event q =
    if not q.use_event_idx
    then (not (test_bit q.avail_flags 0), q)
    else (if need_event q.used_event q.used_idx q.last_used_signalled
        then (true, record q { last_used_signalled = q.used_idx })
        else (false, q))
