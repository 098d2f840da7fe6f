-- ===== src/Ioeventfd/Tests.antt =====
-- An event of a virtio device, added and deleted.
use kvmc.Prelude.{[], ◌∷◌, true, false, none}
use kvmc.Ioeventfd.{Ioevent, Events, Request, Answers}

abbrev event : Ioevent
event = record { io_addr = 0x50; io_len = 4; fn_ptr = 1; fd = 9; datamatch = 1; flags = 0 }

abbrev other : Ioevent
other = record { io_addr = 0x250; io_len = 4; fn_ptr = 0; fd = 8; datamatch = 0; flags = 0 }

abbrev before : Events
before = record { avail = true; used = other ∷ []; calls = [] }

abbrev answers : Answers
answers = record { malloc = true; ioctl = none; epoll = none }

abbrev polled : Request
polled = record { pio = false; user_poll = true }
