-- ===== src/I8042.antt =====
-- hw/i8042.c: the PS/2 keyboard controller. `state` is passed explicitly. The calls into the
-- machine (`kvm__irq_line`, `kvm__reboot`) are the events that a handler appends, newest first.
-- `kread`, `kwrite`, `mread` and `mwrite` are C ints that only grow. Where one passes 2^31 - 1, and where
-- a byte is stored outside a queue, the behaviour is undefined, which `undefined` records; a read
-- outside a queue has no state.
pub mod Queue
pub mod Invariant
pub mod Protocol
mod Tests
use kvmc.Prelude.{
  ℕ, ◌+◌, ◌-◌, ◌%◌, ◌^◌, List, [], ◌∷◌, Bool, true, false, ◌&&◌, ◌||◌, not, length, Option, none,
  some, ltb, ◌==◌, if◌then◌else◌, get_elem?, get_or, set, replicate, set_bit, clear_bit,
}
use kvmc.Data.{Data, read8, read32, write8, write32}

pub data Event : Type 0 where
  irq_line : ℕ → ℕ → Event
  reboot : Event

-- `struct kbd_state`; a `char` of the queues is its byte.
pub record KbdState : Type 0 where
  pub kq : List ℕ
  pub kread : ℕ
  pub kwrite : ℕ
  pub kcount : ℕ
  pub mq : List ℕ
  pub mread : ℕ
  pub mwrite : ℕ
  pub mcount : ℕ
  pub mstatus : ℕ
  pub mres : ℕ
  pub msample : ℕ
  pub mode : ℕ
  pub status : ℕ
  pub write_cmd : ℕ
  pub undefined : Bool
  pub events : List Event

abbrev pub queue_size : ℕ
queue_size = 128

abbrev pub response_ack : ℕ
response_ack = 0xfa

-- IRQ 1 is the keyboard's, 12 the mouse's; bit 0 of `status` is OBF and bit 5 is AUXDATA.
pub kbd_update_irq : KbdState → KbdState
kbd_update_irq s =
    let klevel = if ltb 0 s.kcount then 1 else 0 in
    let cleared = clear_bit (clear_bit s.status 0) 5 in
    let with_kbd = if ltb 0 s.kcount then set_bit cleared 0 else cleared in
    let mouse = klevel == 0 && not (s.mcount == 0) in
    let status = if mouse then set_bit (set_bit with_kbd 0) 5 else with_kbd in
    let mlevel = if mouse then 1 else 0 in
    record s { status = status; events = irq_line 12 mlevel ∷ irq_line 1 klevel ∷ s.events }

-- `q[i] = c`; `none` is a store outside the array.
abbrev pub store_at : List ℕ → ℕ → ℕ → Option (List ℕ)
store_at q i c = if ltb i (length q) then some (set q i c) else none

-- Whether an int that has the value `n` passes its last value when it is counted up.
abbrev pub int_overflows : ℕ → Bool
int_overflows n = not (ltb (n + 1) (2 ^ 31))

pub mouse_queue : ℕ → KbdState → KbdState
mouse_queue c s =
    if ltb s.mcount queue_size
    then elim (store_at s.mq (s.mwrite % queue_size) c) [
      | none ↦ record s { undefined = true }
      | some mq ↦ kbd_update_irq (record s {
        mq = mq;
        mwrite = s.mwrite + 1;
        mcount = s.mcount + 1;
        undefined = s.undefined || int_overflows s.mwrite;
      })
    ]
    else s

pub kbd_queue : ℕ → KbdState → KbdState
kbd_queue c s =
    if ltb s.kcount queue_size
    then elim (store_at s.kq (s.kwrite % queue_size) c) [
      | none ↦ record s { undefined = true }
      | some kq ↦ kbd_update_irq (record s {
        kq = kq;
        kwrite = s.kwrite + 1;
        kcount = s.kcount + 1;
        undefined = s.undefined || int_overflows s.kwrite;
      })
    ]
    else s

-- The command written to port 0x64.
pub kbd_write_command : ℕ → KbdState → KbdState
kbd_write_command val s =
    if val == 0x20
    then kbd_queue s.mode s
    else (if val == 0x60
        then record s { write_cmd = val }
        else (if val == 0xd4
            then record s { write_cmd = val }
            else (if val == 0xd3
                then record s { write_cmd = val }
                else (if val == 0xa9
                    then mouse_queue 0 s
                    else (if val == 0xa7
                        then record s { mode = set_bit s.mode 5 }
                        else (if val == 0xa8
                            then record s { mode = clear_bit s.mode 5 }
                            else (if val == 0xfe
                                then record s { events = reboot ∷ s.events }
                                else s)))))))

-- A `char` that is read into a `u32`: the sign is extended.
abbrev pub char_to_u32 : ℕ → ℕ
char_to_u32 c = if ltb c 128 then c else c + (2 ^ 32 - 256)

-- `ret = queue[i]`, where the index may be out of range.
read_at : List ℕ → ℕ → KbdState → Option (ℕ × KbdState)
read_at q i s = elim (get_elem? q i) [ none ↦ none | some c ↦ some (char_to_u32 c, s) ]

-- `none` is a read outside `kq`, which has no defined value. On queues of `queue_size` bytes only
-- the last branch can make one.
pub kbd_read_data : KbdState → Option (ℕ × KbdState)
unfolding read_at
kbd_read_data s =
    if not (s.kcount == 0)
    then read_at s.kq (s.kread % queue_size) (
        kbd_update_irq (record s {
          kread = s.kread + 1;
          undefined = s.undefined || int_overflows s.kread;
          kcount = s.kcount - 1;
          events = irq_line 1 0 ∷ s.events;
        }))
    else (if ltb 0 s.mcount
        then read_at s.mq (s.mread % queue_size) (
            kbd_update_irq (record s {
              mread = s.mread + 1;
              undefined = s.undefined || int_overflows s.mread;
              mcount = s.mcount - 1;
              events = irq_line 12 0 ∷ s.events;
            }))
        else read_at s.kq (if ltb s.kread 1 then queue_size else s.kread - 1) s)

-- 0xf6 and 0xff
defaults : KbdState → KbdState
defaults s = record s { mstatus = 0; mres = 2; msample = 100 }

-- The argument bytes of AUX_SEND, behind its ACK.
pub mouse_command : ℕ → KbdState → KbdState
unfolding defaults
mouse_command val s =
    if val == 0xe6
    then record s { mstatus = clear_bit s.mstatus 4 }
    else (if val == 0xe8
        then record s { mres = val }
        else (if val == 0xe9
            then mouse_queue s.msample (mouse_queue s.mres (mouse_queue s.mstatus s))
            else (if val == 0xf2
                then mouse_queue 0 s
                else (if val == 0xf3
                    then record s { msample = val }
                    else (if val == 0xf4
                        then record s { mstatus = set_bit s.mstatus 5 }
                        else (if val == 0xf5
                            then record s { mstatus = clear_bit s.mstatus 5 }
                            else (if val == 0xf6
                                then defaults s
                                else (if val == 0xff then defaults s else s))))))))

-- The `switch` on `write_cmd`.
argument : ℕ → KbdState → KbdState
argument val s =
    if s.write_cmd == 0x60
    then kbd_update_irq (record s { mode = val % 256 })
    else (if s.write_cmd == 0xd3
        then mouse_queue response_ack (mouse_queue (val % 256) s)
        else (if s.write_cmd == 0xd4
            then mouse_command val (mouse_queue response_ack s)
            else (if s.write_cmd == 0
                then kbd_update_irq (kbd_queue 0x41 (kbd_queue 0xab (kbd_queue response_ack s)))
                else s)))

-- A byte written to the data port 0x60, the argument of `write_cmd`.
pub kbd_write_data : ℕ → KbdState → KbdState
unfolding argument
kbd_write_data val s = record (argument val s) { write_cmd = 0 }

pub kbd_reset : KbdState
kbd_reset = record {
  kq = replicate queue_size 0;
  kread = 0;
  kwrite = 0;
  kcount = 0;
  mq = replicate queue_size 0;
  mread = 0;
  mwrite = 0;
  mcount = 0;
  mstatus = 0;
  mres = 2;
  msample = 100;
  mode = 3;
  status = 0x1c;
  write_cmd = 0;
  undefined = false;
  events = [];
}

reply : Data → Option (ℕ × KbdState) → Option (Bool × Data × KbdState)
reply d none = none
reply d (some (value, s)) = some (true, write32 d value, s)

-- The handler of a port read: whether the port is the controller's, the buffer, and the state.
pub kbd_in : ℕ → Data → KbdState → Option (Bool × Data × KbdState)
unfolding reply
kbd_in port d s =
    if port == 0x64
    then some (true, write8 d s.status, s)
    else (if port == 0x60
        then reply d (kbd_read_data s)
        else (if port == 0x61 then some (true, write8 d 0x20, s) else some (false, d, s)))

pub kbd_out : ℕ → Data → KbdState → Bool × KbdState
kbd_out port d s =
    if port == 0x64
    then (true, kbd_write_command (read8 d) s)
    else (if port == 0x60
        then (true, kbd_write_data (read32 d) s)
        else (if port == 0x61 then (true, s) else (false, s)))
