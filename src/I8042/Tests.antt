-- ===== src/I8042/Tests.antt =====
-- The theorems of hw/i8042.c at concrete states.
use kvmc.Prelude.{arith, ◌≡◌, refl, [], ◌∷◌, none, some}
use kvmc.I8042.{
  KbdState, kbd_update_irq, mouse_queue, kbd_queue, kbd_read_data, kbd_reset, kbd_out, kbd_in,
  char_to_u32,
}
use kvmc.I8042.Invariant.{
  IsValid, LeavesValid, kbd_reset-IsValid, HasRoom, kbd_queue-HasRoom, mouse_queue-HasRoom,
  handlers-IsValid,
}
use kvmc.I8042.Protocol.{pending, read_refines}

-- One byte of each device waits.
abbrev busy : KbdState
busy = kbd_queue 0x1e (mouse_queue 7 kbd_reset)

busy-HasRoom : HasRoom 0 0 busy
unfolding kbd_reset
busy-HasRoom = kbd_queue-HasRoom 0x1e 0 0 _ (
    mouse_queue-HasRoom 7 1 0 _
      (record { valid = kbd_reset-IsValid; k_room = omega arith; m_room = omega arith }))

handlers-IsValid_example :
    IsValid (kbd_out 0x60 (λ i. 0xf4) busy).1
    × LeavesValid 0x60 busy (kbd_in 0x60 (λ i. 0xf4) busy)
    × IsValid (kbd_queue 3 busy)
    × IsValid (mouse_queue 3 busy)
unfolding kbd_queue mouse_queue kbd_update_irq kbd_reset
handlers-IsValid_example =
    handlers-IsValid 0x60 (λ i. 0xf4) 3 busy busy-HasRoom.valid (omega arith) (omega arith)

read_refines_example :
    (s' : KbdState) × (kbd_read_data busy ≡ some (char_to_u32 0x1e, s'))
    × (pending s' ≡ 7 ∷ [])
    × IsValid s'
unfolding kbd_queue mouse_queue kbd_update_irq kbd_reset
read_refines_example =
    read_refines busy 0x1e (7 ∷ []) busy-HasRoom.valid (omega arith) (omega arith) refl

-- A fresh controller has no keyboard byte to repeat: the read goes past the end of the queue.
fresh_read : kbd_read_data kbd_reset ≡ none
unfolding kbd_read_data kbd_reset
fresh_read = refl
