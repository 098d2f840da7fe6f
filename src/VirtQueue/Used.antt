-- ===== src/VirtQueue/Used.antt =====
-- The used ring of hw/virtio/core.c: publishing requests one by one and in a batch.
use kvmc.Prelude.{
  ℕ, ◌+◌, ◌%◌, ◌<◌, ◌≡◌, refl, sym, ap, ◌∙◌, List, [], ◌∷◌, arith, length, if◌then◌else◌, ◌==◌,
}
use kvmc.VirtQueue.{
  VirtQueue, UsedElem, used_idx_advance, set_used_elem_no_update, set_used_elem, u16,
}

-- One call of `virt_queue__set_used_elem` for each element.
abbrev pub set_each : List UsedElem → VirtQueue → VirtQueue
set_each [] q = q
set_each (e ∷ es) q = set_each es (set_used_elem e.id e.len q)

-- The elements at the offsets from `start` on, with no update of the index.
abbrev pub set_offsets : List UsedElem → ℕ → VirtQueue → VirtQueue
set_offsets [] start q = q
set_offsets (e ∷ es) start q =
    set_offsets es (start + 1) (set_used_elem_no_update e.id e.len start q)

no_update-advance :
    (head len offset k : ℕ) (q : VirtQueue)
    → set_used_elem_no_update head len offset (used_idx_advance k q)
      ≡ used_idx_advance k (set_used_elem_no_update head len (offset + k) q)
unfolding set_used_elem_no_update used_idx_advance
no_update-advance head len offset k q =
    let slot : u16 (u16 (q.used_idx + k) + offset) ≡ u16 (q.used_idx + (offset + k)) =
      omega arith in
    ap
      (λ t. record q {
        used_idx = u16 (q.used_idx + k);
        used_ring = λ i. if i == t % q.num then record { id = head; len = len } else q.used_ring i;
      })
      slot

set_offsets-advance :
    (es : List UsedElem) (start : ℕ) (q : VirtQueue)
    → set_offsets es start (used_idx_advance 1 q)
      ≡ used_idx_advance 1 (set_offsets es (start + 1) q)
set_offsets-advance [] start q = refl
set_offsets-advance (e ∷ es) start q =
    ap (set_offsets es (start + 1)) (no_update-advance e.id e.len start 1 q)
    ∙ set_offsets-advance es (start + 1) (set_used_elem_no_update e.id e.len (start + 1) q)

advance-advance :
    (n : ℕ) (q : VirtQueue) → used_idx_advance n (used_idx_advance 1 q) ≡ used_idx_advance (n + 1) q
unfolding used_idx_advance
advance-advance n q = ap (λ t. record q { used_idx = t }) (omega arith)

advance-zero : (q : VirtQueue) → q.used_idx < 65536 → used_idx_advance 0 q ≡ q
unfolding used_idx_advance
advance-zero q h = ap (λ t. record q { used_idx = t }) (omega arith)

used_idx-lt : (e : UsedElem) (q : VirtQueue) → (set_used_elem e.id e.len q).used_idx < 65536
unfolding set_used_elem used_idx_advance
used_idx-lt e q = omega arith

-- Filling the used ring at rising offsets and advancing the index once, by their number, leaves the
-- queue as one `virt_queue__set_used_elem` for each element does, also where the index, of 16 bits,
-- wraps.
pub set_offsets-set_each :
    (es : List UsedElem) (q : VirtQueue)
    → q.used_idx < 65536
    → used_idx_advance (length es) (set_offsets es 0 q) ≡ set_each es q
unfolding set_used_elem
set_offsets-set_each [] q h = advance-zero q h
set_offsets-set_each (e ∷ es) q h =
    let filled = set_used_elem_no_update e.id e.len 0 q in
    ap (λ n. used_idx_advance n (set_offsets es 1 filled)) {x = length (e ∷ es)} (omega arith)
    ∙ sym (advance-advance (length es) (set_offsets es 1 filled))
    ∙ ap (used_idx_advance (length es)) (sym (set_offsets-advance es 0 filled))
    ∙ set_offsets-set_each es (set_used_elem e.id e.len q) (used_idx-lt e q)
