-- ===== src/Lib.antt =====
-- kvmtool, a host tool for virtual machines: its emulated devices and what connects them.
--
-- The parts. A guest's access to an I/O port or to device memory comes to hw/ioport.c or
-- hw/mmio.c, which look up the device in an interval tree (util/rbtree-interval.c) and call its
-- handler. The devices modelled are the PS/2 controller (hw/i8042.c), the four serial ports
-- (hw/serial.c), the clock (hw/rtc.c), and the configuration space of PCI (hw/pci.c). Every
-- registered device is also in the list of src/devices.c. The virtio devices talk to the guest
-- through queues in its memory (hw/virtio/core.c), whose addresses src/kvm.c translates;
-- src/irq.c keeps the routes of their interrupts; a device on the memory bus shows its registers
-- through hw/virtio/mmio.c and one on the PCI bus through hw/virtio/pci.c, which ask
-- src/ioeventfd.c for events of the kernel; the user-mode network moves packets in the buffers
-- of src/net/buf.c, with the checksum of src/net/csum.c. The devices leave their work to the
-- pool of threads in util/threadpool.c; the 9p device, hw/virtio/9p.c, serves a directory of the
-- host and packs its messages in hw/virtio/9p-pdu.c; a disk may be an image in the QCOW format,
-- which hw/disk/qcow.c reads.
--
-- The files.
--   Prelude     names shared by all, Boolean tests, lists, and register bits (Prelude/Bits)
--   RbTree      util/rbtree.c: the node, rb_first, and the record Balance
--   Interval    util/rbtree-interval.c: search_single, search_range, insert (its descent is link),
--               int_erase; Order, Search, Insert, Erase for the proofs, Spine for a concrete Balance
--   Data        the buffer of a port access, include/kvm/ioport.h: read8, write8, read32, write32
--   I8042       hw/i8042.c: KbdState is struct kbd_state; kbd_in and kbd_out are the port handlers;
--               Queue, Invariant and Protocol for the proofs
--   Serial      hw/serial.c: Serial is struct serial8250_device; out and in_port are the port
--               handlers serial8250_out and serial8250_in, update_consoles the polling loop; Fifo,
--               Invariant and Registers for the proofs
--   Devices     src/devices.c, with irq__alloc_line of src/irq.c and pci__assign_irq of hw/pci.c
--   Pci         hw/pci.c: config_wr, config_rd, the ports and the memory region; Config for the proofs
--   Ioport      hw/ioport.c: register, unregister, emulate_io; Dispatch and Locks for the proofs
--   Mmio        hw/mmio.c: register_mmio, deregister_mmio, emulate_mmio; Dispatch for the proofs
--   Memory      src/kvm.c: register_mem, guest_flat_to_host, host_to_guest_flat, for_each_mem_bank;
--               Register and Translate for the proofs
--   VirtQueue   hw/virtio/core.c and include/kvm/virtio.h: pop, available, the used ring, the walk
--               over a chain, should_signal; Used, Chain and Signal for the proofs
--   Rtc         hw/rtc.c: data_in, data_out, index_out; Clock and Ram for the proofs
--   Irq         src/irq.c: add_msix_route, update_msix_route; Routes for the proofs
--   Uip         src/net/csum.c and src/net/buf.c; Checksum and Buffers for the proofs
--   ThreadPool  util/threadpool.c: job_pop, job_push, signal_job (do_job) and finish_job
--               (handle_job) on the queue, and Step for the workers; Invariant, Safety and Progress
--               for the proofs
--   P9Pdu       hw/virtio/9p-pdu.c: pdu_read, pdu_write, encode, decode; Buffers and Codec for the
--               proofs
--   P9          hw/virtio/9p.c: the state, and the record Host of what the kernel and the C library
--               do; the handlers virtio_p9_* keep their names. Paths for path names, Fids for the
--               table of fids, Replies for what handlers share, Files, Names, Transfer and Walk for
--               the handlers, Server for a request and do_io for those of a queue, Device for the
--               registration of a directory; the proofs are in Paths/Components,
--               Fids/Table, Fids/Insert, Fids/Erase and Fids/Refine, Replies/Header, Names/Rename,
--               Transfer/Bytes, Safety and the modules below it, and Progress with Progress/Loops;
--               Fids/Spine has a concrete Balance
--   Qcow        hw/disk/qcow.c, reading: l2_table_search, cache_table, qcow_read_l2_table,
--               qcow_read_cluster, qcow_read_sector_single, qcow_read_sector; Cache, Read,
--               Read/Buffers and Read/Ends for the proofs
--   Ioeventfd   src/ioeventfd.c: add_event and del_event; EventList for the proofs
--   VirtioMmio  hw/virtio/mmio.c: mmio_callback is the handler of the region, config_in and config_out
--               its registers, exit_events the end of virtio_mmio_exit; Registers, Config and Exit for
--               the proofs
--   VirtioPci   hw/virtio/pci.c: the signals, and the vectors that steer them, with the routes of Irq;
--               Ports for io_in and io_out; Interrupts and Ports/Bounds for the proofs
-- A module Tests of a part applies its theorems to concrete states.
--
-- How the code is read. A global or static variable, or a structure that a handler gets, is a
-- record that operations take and return; an error code is a value of IntResult (Devices) or of
-- the part's own type; NULL is none. A call into the kernel or the C library is an argument that
-- says what it answered, or an event in a list. An integer of w bits keeps its wrap-around where
-- the code's value can reach it: addresses modulo 2 ^ 64, ring indices modulo 65536, bytes
-- modulo 256. The ints kread, kwrite and their like of hw/i8042.c only grow, and the state
-- records where one passes its last value. The threads of the pool are a step relation,
-- ThreadPool.Step: a step is what one thread does under a mutex, and the steps come in any
-- order; a wait for the condition variable, and the signal that ends it, are steps too.
--
-- Bounds and fuel. The PS/2 queues hold 128 bytes, the serial buffers 64, the clock's memory
-- 128. The walk over a chain of descriptors takes its number of rounds as an argument: Chain
-- proves that as many as the chain is long are enough, and that no number is for a cycle. The
-- fold of uip_csum has as many rounds as the sum has units, and one more; Checksum proves that
-- it ends within them. The loop of qcow_read_sector_single gets fuel; Qcow/Read/Ends proves that
-- one more than the number of bytes is enough if no read fails. The loops of virtio_p9_walk and
-- virtio_p9_readdir get fuel, and say so where it does not last; Progress/Loops proves that as
-- many rounds as names, or as entries that the host has left, are enough, and that no number is
-- for a walk over more than 255 names. The cache of L2 tables holds 32. All other loops recurse
-- on a list, a tree or a count of the code.
--
-- What is assumed. The rebalancing of the red-black trees is a parameter, Balance: insertion
-- fix-up keeps the sequence of the nodes, and erasure takes out the one node; Interval/Spine and
-- Devices/Spine and P9/Fids/Spine have functions that do so. vring_need_event is a parameter
-- with the property that its header documents, PassesEvent. The hooks of a PCI device are
-- parameters, and so are malloc, zlib's inflate, what pread answers, and what the operations of
-- a virtio device answer and for which queues they leave its arrays. The 9p server's host is the
-- record Host, without laws, which also says what snprintf makes of a text that it writes over;
-- Safety names what a host may keep, Respects, and proves that the server keeps it too; paths
-- are compared as texts, and what a symbolic link does is the host's. A fid that is freed keeps
-- its place in the model, where the code gives the memory back. The buffers of a 9p message do
-- not overlap. The host is little-endian and the guest has its byte order.
--
-- What is not modelled: writing to QCOW images and the other disk images, the virtio devices,
-- the set-up of the 9p device's queue and virtio_9p_img_name_parser, the region of the MSI-X
-- table of hw/virtio/pci.c, the protocols of the user-mode network, displays, the commands, and
-- each architecture's set-up; they are system calls and library calls for the most part. Outside
-- the thread pool each handler is one step, and of the locks only the write lock of hw/ioport.c
-- is modelled.
pub mod Prelude
pub mod RbTree
pub mod Interval
pub mod Data
pub mod I8042
pub mod Serial
pub mod Devices
pub mod Ioport
pub mod Mmio
pub mod Memory
pub mod VirtQueue
pub mod Rtc
pub mod Irq
pub mod Uip
pub mod Pci
pub mod ThreadPool
pub mod P9Pdu
pub mod P9
pub mod Qcow
pub mod Ioeventfd
pub mod VirtioMmio
pub mod VirtioPci
