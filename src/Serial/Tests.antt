-- ===== src/Serial/Tests.antt =====
-- The theorems of hw/serial.c at concrete devices.
use kvmc.Prelude.{ℕ, ◌≡◌, refl, List, [], ◌∷◌, Option, some, true}
use kvmc.Serial.{Serial, device, out, in_port, receive, update_irq}
use kvmc.Serial.Fifo.{unread}
use kvmc.Serial.Invariant.{IsValid, device-IsValid, port_access-IsValid}
use kvmc.Serial.Registers.{receive_fifo}

abbrev tty : Serial
tty = device 0 0x3f8 4

abbrev tty-IsValid : IsValid tty
tty-IsValid = device-IsValid 0 0x3f8 4

abbrev typed : List (Option ℕ)
typed = some b'h' ∷ some b'i' ∷ []

port_access-IsValid_example :
    IsValid (out 0x3f8 (λ i. b'x') tty).1 × IsValid (in_port 0x3f8 (λ i. b'x') tty).2
port_access-IsValid_example = port_access-IsValid 0x3f8 (λ i. b'x') tty tty-IsValid

receive_fifo_example : unread (update_irq (receive true true 0 typed tty).0) ≡ b'h' ∷ b'i' ∷ []
unfolding device
receive_fifo_example = receive_fifo true typed tty tty-IsValid refl refl

-- A port that loops "a" back to itself.
abbrev looped : Serial
looped = (out 0x3f8 (λ i. b'a') (out 0x3fc (λ i. 0x10) tty).1).1

looped-IsValid : IsValid looped
looped-IsValid =
    (port_access-IsValid 0x3f8 (λ i. b'a') _
      (port_access-IsValid 0x3fc (λ i. 0x10) tty tty-IsValid).0).0
