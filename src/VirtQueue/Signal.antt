-- ===== src/VirtQueue/Signal.antt =====
-- When hw/virtio/core.c interrupts the guest.
use kvmc.Prelude.{ℕ, ◌+◌, ◌<◌, ◌≡◌, Bool, true, false, arith, ltb, ◌-◌, ◌∙◌, ap}
use mathlib.Core.Path.{ap₂}
use kvmc.VirtQueue.{VirtQueue, should_signal, u16}

-- What the header documents of `vring_need_event(event, new, old)`: it is true if the index passed
-- `event` while it went from `old` to `new`. `j` and `d` are the distances of the two from `old`.
abbrev pub PassesEvent : (ℕ → ℕ → ℕ → Bool) → Type 0
PassesEvent need_event =
    (old j d : ℕ) → need_event (u16 (old + j)) (u16 (old + d)) (u16 old) ≡ ltb (u16 j) (u16 d)

-- With event indices, and `d` elements used since the last signal, fewer than 65536, the guest that
-- asked to hear of the element `j` places behind the last signalled one is signalled exactly if
-- that element is among them, and the next call for the same index does not signal again.
should_signal_lem :
    (need_event : ℕ → ℕ → ℕ → Bool) (q : VirtQueue) (j d : ℕ)
    → PassesEvent need_event
    → q.use_event_idx ≡ true
    → q.last_used_signalled < 65536
    → j < 65536
    → d < 65536
    → q.used_event ≡ u16 (q.last_used_signalled + j)
    → q.used_idx ≡ u16 (q.last_used_signalled + d)
    → let (signalled, q') = should_signal need_event q in
      (signalled ≡ ltb j d) × ((should_signal need_event q').0 ≡ false)
unfolding should_signal
should_signal_lem need_event q j d doc on l hj hd ej ed =
    let old = q.last_used_signalled in
    let first : need_event q.used_event q.used_idx old ≡ ltb j d =
      rw (ej, ed)
        (ap (need_event (u16 (old + j)) (u16 (old + d))) {x = old} {y = u16 old} (omega arith)
          ∙ doc old j d
          ∙ ground arith) in
    let back = q.used_event + 65536 - q.used_idx in
    let event : q.used_event ≡ u16 (q.used_idx + back) = omega arith in
    let same : q.used_idx ≡ u16 (q.used_idx + 0) = omega arith in
    let again : need_event q.used_event q.used_idx q.used_idx ≡ false =
      ap₂ (λ e n. need_event e n q.used_idx) event same
      ∙ ap (need_event (u16 (q.used_idx + back)) (u16 (q.used_idx + 0))) {y = u16 q.used_idx}
          (omega arith)
      ∙ doc q.used_idx back 0
      ∙ ground arith in
    ground (arith, on, first, again)
