-- ===== src/Serial/Invariant.antt =====
-- What every handler of hw/serial.c keeps: the buffers are in bounds, the data-ready bit tells
-- whether a byte waits, and the interrupt line follows the enabled causes.
use kvmc.Prelude.{
  ℕ, ◌%◌, ◌≤◌, ◌<◌, ◌≡◌, List, [], ◌∷◌, Option, none, some, arith, ◌==◌, Bool, true, false, not,
  ◌&&◌, ◌||◌, length, length-set, test_bit, length-replicate, All, Bool-cases, inl, inr, set_bit,
}
use native.Mathlib.Decide.{dec_lt}
use kvmc.Data.{Data, read8}
use kvmc.Serial.{
  Serial, Event, irq_line, term_putc, device, flush_tx, clear_rx, clear_tx, causes, set_line,
  update_irq, rx_push, receive_loop, inject, receive, update_from, update_consoles, offset, tx_push,
  write_tx, write_reg, out, rx_done, rx, read_reg, in_port,
}

-- The level of the interrupt line after the calls made so far.
abbrev pub level : List Event → Bool
level [] = false
level (irq_line irq l ∷ es) = not (l == 0)
level (term_putc bytes id ∷ es) = level es

-- An enabled interrupt has a cause: received data, or an empty transmitter.
abbrev pub asserted : Serial → Bool
asserted dev =
    (test_bit dev.ier 0 && test_bit dev.lsr 0) || (test_bit dev.ier 1 && test_bit dev.lsr 6)

-- What the handlers rely on inside.
pub record InBounds (dev : Serial) : Type 0 where
  pub txbuf_size : length dev.txbuf ≡ 64
  pub rxbuf_size : length dev.rxbuf ≡ 64
  pub tx_fits : dev.txcnt ≤ 64
  pub rx_fits : dev.rxcnt ≤ 64
  pub rx_order : dev.rxdone ≤ dev.rxcnt
  pub rx_open : (dev.rxdone == dev.rxcnt) ≡ (dev.rxcnt == 0)
  pub data_ready : test_bit dev.lsr 0 ≡ not (dev.rxcnt == 0)
  pub line : level dev.events ≡ not (dev.irq_state == 0)

-- What holds between handlers.
pub record IsValid (dev : Serial) : Type 0 where
  pub in_bounds : InBounds dev
  pub drained : dev.txcnt ≡ 0
  pub follows : level dev.events ≡ asserted dev
  pub rx_clear_done : test_bit dev.lcr 1 ≡ false
  pub tx_clear_done : test_bit dev.lcr 2 ≡ false

-- Inside a handler the transmit buffer holds nothing either.
pub record Ready (dev : Serial) : Type 0 where
  pub bounds : InBounds dev
  pub drained : dev.txcnt ≡ 0

clear_rx-Ready : (dev : Serial) → Ready dev → Ready (clear_rx dev)
unfolding clear_rx
clear_rx-Ready dev r = ground arith

clear_tx-Ready : (dev : Serial) → Ready dev → Ready (clear_tx dev)
unfolding clear_tx
clear_tx-Ready dev r = ground arith

set_line-Ready : (dev : Serial) → Ready dev → Ready (set_line (causes dev) dev)
unfolding set_line causes
set_line-Ready dev r = ground arith

set_line-follows :
    (dev : Serial)
    → Ready dev
    → level (set_line (causes dev) dev).events ≡ asserted (set_line (causes dev) dev)
unfolding set_line causes
set_line-follows dev r = ground arith

clear_tx-done :
    (dev : Serial)
    → (test_bit (clear_tx (clear_rx dev)).lcr 1 ≡ false)
      × (test_bit (clear_tx (clear_rx dev)).lcr 2 ≡ false)
unfolding clear_tx clear_rx
clear_tx-done dev = ground arith

lcr-set_line : (iir : ℕ) (dev : Serial) → (set_line iir dev).lcr ≡ dev.lcr
unfolding set_line
lcr-set_line iir dev = ground arith

flush_tx-IsValid :
    (dev : Serial)
    → Ready dev
    → test_bit dev.ier 1 ≡ false
    → level dev.events ≡ asserted dev
    → test_bit dev.lcr 1 ≡ false
    → test_bit dev.lcr 2 ≡ false
    → IsValid (flush_tx dev)
unfolding flush_tx
flush_tx-IsValid dev r off f l1 l2 = ground arith

update_irq-IsValid : (dev : Serial) → Ready dev → IsValid (update_irq dev)
unfolding update_irq
update_irq-IsValid dev r =
    let cleared = clear_tx (clear_rx dev) in
    let rc = clear_tx-Ready (clear_rx dev) (clear_rx-Ready dev r) in
    let signalled = set_line (causes cleared) cleared in
    let rs = set_line-Ready cleared rc in
    let f = set_line-follows cleared rc in
    let lcr = lcr-set_line (causes cleared) cleared in
    let (done_rx, done_tx) = clear_tx-done dev in
    let l1 : test_bit signalled.lcr 1 ≡ false = rw lcr done_rx in
    let l2 : test_bit signalled.lcr 2 ≡ false = rw lcr done_tx in
    elim (Bool-cases (test_bit signalled.ier 1)) [
      | inl on ↦ rw on (record {
        in_bounds = rs.bounds;
        drained = rs.drained;
        follows = f;
        rx_clear_done = l1;
        tx_clear_done = l2;
      })
      | inr off ↦ rw off (flush_tx-IsValid signalled rs off f l1 l2)
    ]

-- A received byte with the data-ready bit.
pub push_ready-Ready :
    (c : ℕ) (dev : Serial)
    → Ready dev
    → dev.rxcnt < 64
    → Ready (let pushed = rx_push c dev in record pushed { lsr = set_bit pushed.lsr 0 })
unfolding rx_push
push_ready-Ready c dev r h = ground (arith, length-set dev.rxbuf dev.rxcnt c)

receive_loop-Ready :
    (input : List (Option ℕ)) (dev : Serial) → Ready dev → Ready (receive_loop input dev).0
unfolding receive_loop rx_push
receive_loop-Ready [] dev r = r
receive_loop-Ready (none ∷ input) dev r = ground arith
receive_loop-Ready (some c ∷ input) dev r = elim (dec_lt dev.rxcnt 64) [
  | yes room ↦ ground (
    arith,
    receive_loop-Ready input
        (let pushed = rx_push (c % 256) dev in record pushed { lsr = set_bit pushed.lsr 0 })
        (push_ready-Ready (c % 256) dev r room),
  )
  | no full ↦ ground arith
]

inject-Ready : (sysrq : ℕ) (dev : Serial) → Ready dev → dev.rxcnt ≡ 0 → Ready (inject sysrq dev)
unfolding inject rx_push
inject-Ready sysrq dev r e = ground (arith, length-set dev.rxbuf dev.rxcnt (sysrq % 256))

receive-Ready :
    (active first : Bool) (sysrq : ℕ) (input : List (Option ℕ)) (dev : Serial)
    → Ready dev
    → Ready (receive active first sysrq input dev).0
unfolding receive
receive-Ready active first sysrq input dev r =
    ground (arith, inject-Ready sysrq dev r, receive_loop-Ready input dev r)

write_tx-Ready : (d : Data) (dev : Serial) → Ready dev → Ready (write_tx d dev)
unfolding write_tx flush_tx tx_push
write_tx-Ready d dev r =
    ground (arith, push_ready-Ready (read8 d) dev r, length-set dev.txbuf dev.txcnt (read8 d))

write_reg-Ready : (o : ℕ) (d : Data) (dev : Serial) → Ready dev → Ready (write_reg o d dev).1
unfolding write_reg
write_reg-Ready o d dev r = ground (arith, write_tx-Ready d dev r)

rx-Ready : (d : Data) (dev : Serial) → Ready dev → Ready (rx d dev).1
unfolding rx rx_done
rx-Ready d dev r = ground arith

read_reg-Ready : (o : ℕ) (d : Data) (dev : Serial) → Ready dev → Ready (read_reg o d dev).2
unfolding read_reg
read_reg-Ready o d dev r = ground (arith, rx-Ready d dev r)

abbrev ready : {dev : Serial} → IsValid dev → Ready dev
ready v = record { bounds = v.in_bounds; drained = v.drained }

-- The state that a port access leaves is valid if the state before was: no index leaves the
-- 64-byte buffers, data-ready is set exactly while a byte waits, nothing stays in the transmit
-- buffer, and the interrupt line is high exactly while an enabled interrupt has a cause.
pub port_access-IsValid :
    (port : ℕ) (d : Data) (dev : Serial)
    → IsValid dev
    → IsValid (out port d dev).1 × IsValid (in_port port d dev).2
unfolding out in_port
port_access-IsValid port d dev v = (
  update_irq-IsValid _ (write_reg-Ready (offset dev port) d dev (ready v)),
  update_irq-IsValid _ (read_reg-Ready (offset dev port) d dev (ready v)),
)

-- The devices of a list are valid.
abbrev pub AllValid : List (Serial × List (Option ℕ)) → Type 0
AllValid = All (λ entry. IsValid entry.0)

update_from-IsValid :
    (active first : Bool) (sysrq : ℕ) (devs : List (Serial × List (Option ℕ)))
    → AllValid devs
    → AllValid (update_from active first sysrq devs).0
unfolding update_from
update_from-IsValid active first sysrq [] v = tt
update_from-IsValid active first sysrq ((dev, input) ∷ devs) v = (
  update_irq-IsValid _ (receive-Ready active first sysrq input dev (ready v.0)),
  update_from-IsValid active false (receive active first sysrq input dev).1 devs v.1,
)

-- A round of `serial8250__update_consoles` keeps every device valid, whatever the terminals and
-- the sysrq hold.
update_consoles-IsValid :
    (active : Bool) (sysrq : ℕ) (devs : List (Serial × List (Option ℕ)))
    → AllValid devs
    → AllValid (update_consoles active sysrq devs).0
unfolding update_consoles
update_consoles-IsValid active sysrq devs v = update_from-IsValid active true sysrq devs v

-- Every device starts valid.
pub device-IsValid : (id iobase irq : ℕ) → IsValid (device id iobase irq)
unfolding device
device-IsValid id iobase irq = ground (arith, length-replicate {A = ℕ} 64 0)
