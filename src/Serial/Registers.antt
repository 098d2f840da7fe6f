-- ===== src/Serial/Registers.antt =====
-- The bytes that pass through hw/serial.c, and the registers that are read back.
use kvmc.Prelude.{
  ℕ, zero, suc, ◌+◌, ◌-◌, ◌%◌, ◌<◌, ◌≡◌, refl, List, [], ◌∷◌, ◌++◌, Option, none, some, arith, Bool,
  true, false, if◌then◌else◌, length, set, test_bit, ◌≢◌, append_assoc, clear_bit, set_bit,
  append-nil, length-set, take, ap,
}
use native.Mathlib.Decide.{dec_lt}
use kvmc.Data.{Data, read8}
use kvmc.Serial.{
  Serial, Event, irq_line, term_putc, flush_tx, clear_rx, clear_tx, set_line, update_irq, rx_push,
  receive_loop, receive, offset, tx_push, write_tx, write_reg, out, rx_done, rx, read_reg, in_port,
}
use kvmc.Serial.Fifo.{slice, unread, slice_of_pos, slice-set}
use kvmc.Serial.Invariant.{IsValid, InBounds}

-- The bytes that a terminal was given, in order.
abbrev pub printed : List Event → List ℕ
printed [] = []
printed (irq_line irq l ∷ es) = printed es
printed (term_putc bytes id ∷ es) = printed es ++ bytes

-- The bytes of the input that the device takes, as long as it has room.
abbrev pub chars : ℕ → List (Option ℕ) → List ℕ
chars room [] = []
chars room (none ∷ input) = []
chars zero (some c ∷ input) = []
chars (suc room) (some c ∷ input) = (c % 256) ∷ chars room input

chars_of_pos :
    (room c : ℕ) (input : List (Option ℕ))
    → room ≢ 0
    → chars room (some c ∷ input) ≡ (c % 256) ∷ chars (room - 1) input
chars_of_pos zero c input h = absurd (h refl)
chars_of_pos (suc room) c input h = ap (λ k. (c % 256) ∷ chars k input) (omega arith)

chars_of_zero : (room c : ℕ) (input : List (Option ℕ)) → room ≡ 0 → chars room (some c ∷ input) ≡ []
chars_of_zero zero c input h = refl
chars_of_zero (suc room) c input h = absurd (omega arith)

printed-update_irq :
    (dev : Serial) → dev.txcnt ≡ 0 → printed (update_irq dev).events ≡ printed dev.events
unfolding update_irq clear_tx clear_rx set_line flush_tx
printed-update_irq dev h = ground arith

lcr-update_irq :
    (dev : Serial)
    → ((update_irq dev).lcr ≡ clear_bit (clear_bit dev.lcr 1) 2)
      × ((update_irq dev).iobase ≡ dev.iobase)
unfolding update_irq clear_tx clear_rx set_line flush_tx
lcr-update_irq dev = ground arith

take_one-set : (q : List ℕ) (c : ℕ) → 0 < length q → take 1 (set q 0 c) ≡ c ∷ []
take_one-set [] c h = absurd (omega arith)
take_one-set (x ∷ q) c h = refl

flush_tx-tx_push :
    (c : ℕ) (dev : Serial)
    → IsValid dev
    → (printed (flush_tx (tx_push c dev)).events ≡ printed dev.events ++ (c ∷ []))
      × ((flush_tx (tx_push c dev)).txcnt ≡ 0)
unfolding flush_tx tx_push
flush_tx-tx_push c dev v =
    ground (arith, take_one-set dev.txbuf c, v.drained, v.in_bounds.txbuf_size)

unread-update_irq :
    (dev : Serial) → unread (update_irq dev) ≡ (if test_bit dev.lcr 1 then [] else unread dev)
unfolding update_irq clear_tx clear_rx set_line flush_tx
unread-update_irq dev = ground arith

rx-unread :
    (d : Data) (dev : Serial) (c : ℕ) (cs : List ℕ)
    → IsValid dev
    → test_bit dev.lsr 4 ≡ false
    → unread dev ≡ c ∷ cs
    → (read8 (rx d dev).0 ≡ c % 256) × (unread (rx d dev).1 ≡ cs) × ((rx d dev).1.lcr ≡ dev.lcr)
unfolding rx rx_done
rx-unread d dev c cs v bi u =
    let some_left : dev.rxcnt - dev.rxdone ≢ 0 = some_unread (dev.rxcnt - dev.rxdone) u in
    ground (arith, slice_of_pos dev.rxbuf dev.rxdone (dev.rxcnt - dev.rxdone) some_left, some_left)
  where
    some_unread : (n : ℕ) → slice dev.rxbuf dev.rxdone n ≡ c ∷ cs → n ≢ 0
    some_unread zero e = cc
    some_unread (suc n) e = omega arith

-- A read of the receive register (offset 0, DLAB clear, no break pending) of a valid device answers
-- the oldest unread byte and removes it alone.
read_fifo :
    (port : ℕ) (d : Data) (dev : Serial) (c : ℕ) (cs : List ℕ)
    → IsValid dev
    → offset dev port ≡ 0
    → test_bit dev.lcr 7 ≡ false
    → test_bit dev.lsr 4 ≡ false
    → unread dev ≡ c ∷ cs
    → let (ret, d', dev') = in_port port d dev in
      (ret ≡ true) × (read8 d' ≡ c % 256) × (unread dev' ≡ cs)
unfolding in_port read_reg
read_fifo port d dev c cs v o dlab bi u =
    let (value, rest, lcr) = rx-unread d dev c cs v bi u in
    ground (arith, value, rest, lcr, v.rx_clear_done, unread-update_irq (rx d dev).1)

receive_loop-unread :
    (input : List (Option ℕ)) (dev : Serial)
    → InBounds dev
    → (unread (receive_loop input dev).0 ≡ unread dev ++ chars (64 - dev.rxcnt) input)
      × ((receive_loop input dev).0.lcr ≡ dev.lcr)
unfolding receive_loop rx_push
receive_loop-unread [] dev v = (rw append-nil, refl)
receive_loop-unread (none ∷ input) dev v = ground (arith, append-nil (unread dev))
receive_loop-unread (some c ∷ input) dev v = elim (dec_lt dev.rxcnt 64) [
  | yes room ↦
      let ready = record dev {
        rxbuf = set dev.rxbuf dev.rxcnt (c % 256);
        rxcnt = dev.rxcnt + 1;
        lsr = set_bit dev.lsr 0;
      } in
      ground (
        arith,
        receive_loop-unread input ready
            (ground (arith, length-set dev.rxbuf dev.rxcnt (c % 256), v, room)),
        slice-set dev.rxbuf dev.rxdone (dev.rxcnt - dev.rxdone) dev.rxcnt (c % 256),
        chars_of_pos (64 - dev.rxcnt) c input,
        append_assoc (unread dev) ((c % 256) ∷ []) (chars (64 - (dev.rxcnt + 1)) input),
        v.rxbuf_size,
        v.rx_order,
      )
  | no full ↦ ground (arith, append-nil (unread dev), chars_of_zero (64 - dev.rxcnt) c input)
]

-- With no SysRq pending, a valid device that is the console, is not in loopback mode and holds no
-- byte takes from the terminal, in order, what the terminal has, up to 64 bytes and up to its first failed read.
pub receive_fifo :
    (first : Bool) (input : List (Option ℕ)) (dev : Serial)
    → IsValid dev
    → test_bit dev.mcr 4 ≡ false
    → dev.rxcnt ≡ 0
    → unread (update_irq (receive true first 0 input dev).0) ≡ chars 64 input
unfolding receive
receive_fifo first input dev v loop e =
    let looped : (receive true first 0 input dev).0 ≡ (receive_loop input dev).0 =
      ground (arith, v.in_bounds.data_ready) in
    let got = receive_loop-unread input dev v.in_bounds in
    rw looped (
      ground (
        arith,
        unread-update_irq (receive_loop input dev).0,
        got,
        v.rx_clear_done,
        nothing_unread (dev.rxcnt - dev.rxdone) (omega arith),
      ))
  where
    nothing_unread : (n : ℕ) → n ≡ 0 → slice dev.rxbuf dev.rxdone n ≡ []
    nothing_unread zero z = refl
    nothing_unread (suc n) z = absurd (omega arith)

-- A byte written to the transmit register of a valid device (offset 0, DLAB clear, no loopback)
-- reaches the terminal within the write, behind all that was printed before.
transmit_prints :
    (port : ℕ) (d : Data) (dev : Serial)
    → IsValid dev
    → offset dev port ≡ 0
    → test_bit dev.lcr 7 ≡ false
    → test_bit dev.mcr 4 ≡ false
    → printed (out port d dev).1.events ≡ printed dev.events ++ (read8 d ∷ [])
unfolding out write_reg write_tx
transmit_prints port d dev v o dlab loop =
    let (sent, empty) = flush_tx-tx_push (read8 d) dev v in
    ground (arith, sent, empty, v.drained, printed-update_irq (flush_tx (tx_push (read8 d) dev)))

-- In loopback mode a byte written to the transmit register of a valid device is queued for the
-- guest itself, if the receive buffer has room, and nothing is printed.
loopback_receives :
    (port : ℕ) (d : Data) (dev : Serial)
    → IsValid dev
    → offset dev port ≡ 0
    → test_bit dev.lcr 7 ≡ false
    → test_bit dev.mcr 4 ≡ true
    → dev.rxcnt < 64
    → (unread (out port d dev).1 ≡ unread dev ++ (read8 d ∷ []))
      × (printed (out port d dev).1.events ≡ printed dev.events)
unfolding out write_reg write_tx rx_push
loopback_receives port d dev v o dlab loop room =
    let pushed = record dev {
      rxbuf = set dev.rxbuf dev.rxcnt (read8 d);
      rxcnt = dev.rxcnt + 1;
      lsr = set_bit dev.lsr 0;
    } in
    ground (
      arith,
      unread-update_irq pushed,
      printed-update_irq pushed,
      slice-set dev.rxbuf dev.rxdone (dev.rxcnt - dev.rxdone) dev.rxcnt (read8 d),
      v.drained,
      v.rx_clear_done,
      v.in_bounds.rxbuf_size,
      v.in_bounds.rx_order,
    )

-- The bits that reset the receive buffer are looked for in the line control register instead of
-- the FIFO control register: a write of FCR leaves the unread bytes as they are, whatever its
-- value, while a write of LCR with bit 1 set (a word length of 7 or 8 bits) drops them all.
fifo_reset_register :
    (fcr_port lcr_port : ℕ) (d : Data) (dev : Serial)
    → IsValid dev
    → offset dev fcr_port ≡ 2
    → offset dev lcr_port ≡ 3
    → (unread (out fcr_port d dev).1 ≡ unread dev)
      × (unread (out lcr_port d dev).1 ≡ (if test_bit (read8 d) 1 then [] else unread dev))
unfolding out write_reg
fifo_reset_register fcr_port lcr_port d dev v o2 o3 = (
  ground (arith, unread-update_irq (record dev { fcr = read8 d }), v.rx_clear_done),
  ground (arith, unread-update_irq (record dev { lcr = read8 d })),
)

-- So the line control register does not read back what was written: bits 1 and 2 are lost.
lcr_read_back :
    (port : ℕ) (d d' : Data) (dev : Serial)
    → offset dev port ≡ 3
    → read8 (in_port port d' (out port d dev).1).1 ≡ clear_bit (clear_bit (read8 d) 1) 2
unfolding out write_reg in_port read_reg
lcr_read_back port d d' dev o = ground (arith, lcr-update_irq (record dev { lcr = read8 d }))
