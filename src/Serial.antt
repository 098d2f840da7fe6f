-- ===== src/Serial.antt =====
-- hw/serial.c: the 16550A serial ports. A handler takes the device and returns it; each runs under
-- the device's mutex, so it is one step. The calls into the machine and the terminal
-- (`kvm__irq_line`, `term_putc`) are the events that it appends, newest first. The terminal of
-- src/term.c is what `term_getc` answers while `term_readable` says yes: `none` is a negative
-- answer, and the end of the list is a terminal with nothing to read.
pub mod Fifo
pub mod Invariant
pub mod Registers
mod Tests
use kvmc.Prelude.{
  ℕ, ◌+◌, ◌-◌, ◌%◌, ◌^◌, List, [], ◌∷◌, Bool, true, false, ◌&&◌, ◌||◌, not, Option, none, some, ltb,
  ◌==◌, if◌then◌else◌, get_or, set, take, replicate, test_bit, set_bit, clear_bit,
}
use kvmc.Data.{Data, read8, write8}

pub data Event : Type 0 where
  irq_line : ℕ → ℕ → Event
  term_putc : List ℕ → ℕ → Event

-- `struct serial8250_device`
pub record Serial : Type 0 where
  pub id : ℕ
  pub iobase : ℕ
  pub irq : ℕ
  pub irq_state : ℕ
  pub txcnt : ℕ
  pub rxcnt : ℕ
  pub rxdone : ℕ
  pub txbuf : List ℕ
  pub rxbuf : List ℕ
  pub dll : ℕ
  pub dlm : ℕ
  pub iir : ℕ
  pub ier : ℕ
  pub fcr : ℕ
  pub lcr : ℕ
  pub mcr : ℕ
  pub lsr : ℕ
  pub msr : ℕ
  pub scr : ℕ
  pub events : List Event

abbrev pub fifo_len : ℕ
fifo_len = 64

-- An entry of `devices[]`, with SERIAL_REGS_SETTING.
pub device : ℕ → ℕ → ℕ → Serial
device id iobase irq = record {
  id = id;
  iobase = iobase;
  irq = irq;
  irq_state = 0;
  txcnt = 0;
  rxcnt = 0;
  rxdone = 0;
  txbuf = replicate fifo_len 0;
  rxbuf = replicate fifo_len 0;
  dll = 0;
  dlm = 0;
  iir = 1;
  ier = 0;
  fcr = 0;
  lcr = 0;
  mcr = 0x08;
  lsr = 0x60;
  msr = 0xb0;
  scr = 0;
  events = [];
}

pub devices : List Serial
unfolding device
devices = device 0 0x3f8 4 ∷ device 1 0x2f8 3 ∷ device 2 0x3e8 4 ∷ device 3 0x2e8 3 ∷ []

-- Bits of `lsr`: 0 DR, 4 BI, 5 THRE, 6 TEMT. Bits of `ier`: 0 RDI, 1 THRI.
pub flush_tx : Serial → Serial
flush_tx dev =
    let ready = record dev { lsr = set_bit (set_bit dev.lsr 6) 5 } in
    if dev.txcnt == 0 then ready else record ready {
      events = term_putc (take dev.txcnt dev.txbuf) dev.id ∷ dev.events;
      txcnt = 0;
    }

-- "Handle clear rx": bit 1 of `lcr`.
pub clear_rx : Serial → Serial
clear_rx dev =
    if test_bit dev.lcr 1
    then record dev { lcr = clear_bit dev.lcr 1; rxcnt = 0; rxdone = 0; lsr = clear_bit dev.lsr 0 }
    else dev

-- "Handle clear tx": bit 2 of `lcr`.
pub clear_tx : Serial → Serial
clear_tx dev =
    if test_bit dev.lcr 2
    then record dev { lcr = clear_bit dev.lcr 2; txcnt = 0; lsr = set_bit (set_bit dev.lsr 6) 5 }
    else dev

-- The interrupts that are enabled and have a cause: 4 is UART_IIR_RDI, 2 is UART_IIR_THRI.
pub causes : Serial → ℕ
causes dev =
    let rdi = if test_bit dev.ier 0 && test_bit dev.lsr 0 then set_bit 0 2 else 0 in
    if test_bit dev.ier 1 && test_bit dev.lsr 6 then set_bit rdi 1 else rdi

-- "Now update the irq line, if necessary"
pub set_line : ℕ → Serial → Serial
set_line iir dev =
    if iir == 0
    then record dev {
      iir = 1;
      events = if dev.irq_state == 0 then dev.events else irq_line dev.irq 0 ∷ dev.events;
      irq_state = iir;
    }
    else record dev {
      iir = iir;
      events = if dev.irq_state == 0 then irq_line dev.irq 1 ∷ dev.events else dev.events;
      irq_state = iir;
    }

pub update_irq : Serial → Serial
update_irq dev =
    let cleared = clear_tx (clear_rx dev) in
    let signalled = set_line (causes cleared) cleared in
    if test_bit signalled.ier 1 then signalled else flush_tx signalled

-- `dev->rxbuf[dev->rxcnt++] = c`
pub rx_push : ℕ → Serial → Serial
rx_push c dev = record dev { rxbuf = set dev.rxbuf dev.rxcnt c; rxcnt = dev.rxcnt + 1 }

-- The loop of `serial8250__receive`; what the terminal holds afterwards is the second part.
pub receive_loop : List (Option ℕ) → Serial → Serial × List (Option ℕ)
receive_loop [] dev = (dev, [])
receive_loop (none ∷ input) dev =
    if ltb dev.rxcnt fifo_len then (dev, input) else (dev, none ∷ input)
receive_loop (some c ∷ input) dev =
    let pushed = rx_push (c % 256) dev in
    let rest = receive_loop input (record pushed { lsr = set_bit pushed.lsr 0 }) in
    if ltb dev.rxcnt fifo_len then rest else (dev, some c ∷ input)

-- `serial8250__sysrq`
pub inject : ℕ → Serial → Serial
inject sysrq dev = rx_push (sysrq % 256) (record dev { lsr = set_bit (set_bit dev.lsr 0) 4 })

-- `serial8250__receive`, with the pending sysrq before and after. `active` is whether the 8250 is
-- the active console.
pub receive : Bool → Bool → ℕ → List (Option ℕ) → Serial → Serial × ℕ × List (Option ℕ)
receive active handle_sysrq sysrq input dev =
    if test_bit dev.mcr 4
    then (dev, sysrq, input)
    else (if test_bit dev.lsr 0 || not (dev.rxcnt == 0)
        then (dev, sysrq, input)
        else (if handle_sysrq && not (sysrq == 0)
            then (inject sysrq dev, 0, input)
            else (if active
                then (let (dev', rest) = receive_loop input dev in (dev', sysrq, rest))
                else (dev, sysrq, input))))

-- `serial8250__update_consoles`: the loop over `devices`, each with its terminal; only the first
-- takes a sysrq.
pub update_from :
    Bool → Bool → ℕ → List (Serial × List (Option ℕ)) → List (Serial × List (Option ℕ)) × ℕ
update_from active first sysrq [] = ([], sysrq)
update_from active first sysrq ((dev, input) ∷ devs) =
    let (dev', sysrq', rest) = receive active first sysrq input dev in
    let (devs', last) = update_from active false sysrq' devs in
    ((update_irq dev', rest) ∷ devs', last)

pub update_consoles :
    Bool → ℕ → List (Serial × List (Option ℕ)) → List (Serial × List (Option ℕ)) × ℕ
unfolding update_from
update_consoles active sysrq devs = update_from active true sysrq devs

-- `port - dev->iobase` as a u16.
abbrev pub offset : Serial → ℕ → ℕ
offset dev port = (port + 65536 - dev.iobase) % 65536

-- The byte goes to `txbuf`; THRE falls at half of the buffer.
pub tx_push : ℕ → Serial → Serial
tx_push c dev =
    let lsr = clear_bit dev.lsr 6 in
    record dev {
      txbuf = set dev.txbuf dev.txcnt c;
      txcnt = dev.txcnt + 1;
      lsr = if dev.txcnt + 1 == 32 then clear_bit lsr 5 else lsr;
    }

-- UART_TX
pub write_tx : Data → Serial → Serial
write_tx d dev =
    if test_bit dev.lcr 7
    then record dev { dll = read8 d }
    else (if test_bit dev.mcr 4
        then (if ltb dev.rxcnt fifo_len
            then (let pushed = rx_push (read8 d) dev in
                record pushed { lsr = set_bit pushed.lsr 0 })
            else dev)
        else (if ltb dev.txcnt fifo_len
            then flush_tx (tx_push (read8 d) dev)
            else record dev { lsr = clear_bit (clear_bit dev.lsr 6) 5 }))

-- The `switch` of `serial8250_out`.
pub write_reg : ℕ → Data → Serial → Bool × Serial
write_reg o d dev =
    if o == 0
    then (true, write_tx d dev)
    else (if o == 1
        then (
          true,
          (if test_bit dev.lcr 7
              then record dev { dlm = read8 d }
              else record dev { ier = read8 d % 16 }),
        )
        else (if o == 2
            then (true, record dev { fcr = read8 d })
            else (if o == 3
                then (true, record dev { lcr = read8 d })
                else (if o == 4
                    then (true, record dev { mcr = read8 d })
                    else (if o == 5
                        then (true, dev)
                        else (if o == 6
                            then (true, dev)
                            else (if o == 7
                                then (true, record dev { scr = read8 d })
                                else (false, dev))))))))

pub out : ℕ → Data → Serial → Bool × Serial
unfolding write_reg
out port d dev = let (ret, dev') = write_reg (offset dev port) d dev in (ret, update_irq dev')

-- The end of `serial8250_rx`: a buffer that is read out is reset.
pub rx_done : Serial → Serial
rx_done dev =
    if dev.rxcnt == dev.rxdone
    then record dev { lsr = clear_bit dev.lsr 0; rxcnt = 0; rxdone = 0 }
    else dev

-- `serial8250_rx`
pub rx : Data → Serial → Data × Serial
rx d dev =
    if dev.rxdone == dev.rxcnt
    then (d, dev)
    else (if test_bit dev.lsr 4 then (write8 d 0, record dev { lsr = clear_bit dev.lsr 4 }) else (
      write8 d (get_or dev.rxbuf dev.rxdone 0),
      rx_done (record dev { rxdone = dev.rxdone + 1 }),
    ))

-- The `switch` of `serial8250_in`.
pub read_reg : ℕ → Data → Serial → Bool × Data × Serial
read_reg o d dev =
    if o == 0
    then (if test_bit dev.lcr 7
        then (true, write8 d dev.dll, dev)
        else (let (d', dev') = rx d dev in (true, d', dev')))
    else (if o == 1
        then (true, write8 d (if test_bit dev.lcr 7 then dev.dlm else dev.ier), dev)
        else (if o == 2
            then (true, write8 d (set_bit (set_bit dev.iir 6) 7), dev)
            else (if o == 3
                then (true, write8 d dev.lcr, dev)
                else (if o == 4
                    then (true, write8 d dev.mcr, dev)
                    else (if o == 5
                        then (true, write8 d dev.lsr, dev)
                        else (if o == 6
                            then (true, write8 d dev.msr, dev)
                            else (if o == 7
                                then (true, write8 d dev.scr, dev)
                                else (false, d, dev))))))))

pub in_port : ℕ → Data → Serial → Bool × Data × Serial
unfolding read_reg
in_port port d dev =
    let (ret, d', dev') = read_reg (offset dev port) d dev in (ret, d', update_irq dev')
