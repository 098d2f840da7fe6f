-- ===== src/VirtioMmio/Exit.antt =====
-- The events of a virtio device and their removal by `virtio_mmio_exit` in hw/virtio/mmio.c.
use kvmc.Prelude.{ℕ, zero, suc, ◌+◌, ◌≤◌, ◌≡◌, refl, sym, ◌∙◌, List, [], ◌∷◌, true, arith, length}
use kvmc.Ioeventfd.{Ioevent, Events, del_event}
use kvmc.Ioeventfd.EventList.{without, held, del_event-Deleted}
use kvmc.VirtioMmio.{Vmmio, notify_addr, del_events, exit_events}

-- No event of an address is held: the list is the one without it.
pub held-zero : (addr : ℕ) (es : List Ioevent) → held addr es ≡ 0 → without addr es ≡ es
held-zero addr [] h = refl
held-zero addr (e ∷ es) h = ground (arith, held-zero addr es)

del_events_lem :
    (addr i n : ℕ) (s : Events)
    → s.avail ≡ true
    → held addr s.used ≤ n
    → (del_events addr i n s).used ≡ without addr s.used
unfolding del_events
del_events_lem addr i zero s on few = sym (held-zero addr s.used (omega arith))
del_events_lem addr i (suc n) s on few =
    let d = del_event-Deleted addr i s on in
    del_events_lem addr (i + 1) n (del_event addr i s).1 (d.0 ∙ on) (omega (arith, d.2)) ∙ d.1

-- On a kernel with ioeventfds, `virtio_mmio_exit` removes every event of the device's notification
-- address, if they are at most as many as it has queues, and leaves all others in their order.
pub exit_events_lem :
    (m : Vmmio)
    → m.events.avail ≡ true
    → held (notify_addr m) m.events.used ≤ length m.ioeventfds
    → (exit_events m).events.used ≡ without (notify_addr m) m.events.used
unfolding exit_events
exit_events_lem m on few = del_events_lem (notify_addr m) 0 (length m.ioeventfds) m.events on few
