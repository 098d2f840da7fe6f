-- ===== src/Prelude/Bits.antt =====
-- Single bits of a register, in the arithmetic form that `omega` reads at a numeral position.
use Prim.Native.Nat.{ℕ, zero, suc, ◌+◌, ◌-◌, ◌*◌, ◌/◌, ◌%◌, ◌^◌, ◌<◌, bit_and, bit_or}
use mathlib.Core.Path.{◌≡◌, refl, sym, ap₂, ◌∙◌}
use native.Mathlib.Decide.{ℕ_discrete}
use mathlib.Core.Bool.{Bool, true, false}
use native.Mathlib.Omega.{arith}
use kvmc.Prelude.Tests.{◌==◌, if◌then◌else◌}

-- `r & (1 << k)` as a truth value.
abbrev pub test_bit : ℕ → ℕ → Bool
test_bit r k = r / 2 ^ k % 2 == 1

-- `r & ~(1 << k)`
abbrev pub clear_bit : ℕ → ℕ → ℕ
clear_bit r k = r - r / 2 ^ k % 2 * 2 ^ k

-- `r | (1 << k)`
abbrev pub set_bit : ℕ → ℕ → ℕ
set_bit r k = r - r / 2 ^ k % 2 * 2 ^ k + 2 ^ k

-- Two functions have the same values up to a number, by evaluation.
agree : (f g : ℕ → ℕ) → ℕ → Bool
agree f g zero = true
agree f g (suc n) = let rest = agree f g n in if f n == g n then rest else false

agree_lem : (f g : ℕ → ℕ) (top i : ℕ) → i < top → agree f g top ≡ true → f i ≡ g i
unfolding agree
agree_lem f g zero i lt same = absurd (omega arith)
agree_lem f g (suc top) i lt same = elim (ℕ_discrete i top) [
  | yes last ↦ rw last (ground arith)
  | no before ↦ agree_lem f g top i (omega arith) (ground arith)
]

-- A position and a byte in one number.
set_bit_table :
    agree (λ i. set_bit (i % 256) (i / 256)) (λ i. bit_or (i % 256) (2 ^ (i / 256))) 2048 ≡ true
unfolding agree
set_bit_table = refl

clear_bit_table :
    agree (λ i. clear_bit (i % 256) (i / 256)) (λ i. bit_and (i % 256) (255 - 2 ^ (i / 256))) 2048
    ≡ true
unfolding agree
clear_bit_table = refl

byte_of : (k r : ℕ) → r < 256 → (k * 256 + r) % 256 ≡ r
byte_of k r h = omega arith

position_of : (k r : ℕ) → r < 256 → (k * 256 + r) / 256 ≡ k
position_of k r h = omega arith

-- On bytes these are the bit operations of C.
pub set_bit-bit_or : (k r : ℕ) → k < 8 → r < 256 → set_bit r k ≡ bit_or r (2 ^ k)
set_bit-bit_or k r hk hr =
    let byte = byte_of k r hr in
    let position = position_of k r hr in
    sym (ap₂ (λ r k. set_bit r k) byte position)
    ∙ agree_lem _ _ 2048 (k * 256 + r) (omega arith) set_bit_table
    ∙ ap₂ (λ r k. bit_or r (2 ^ k)) byte position

pub clear_bit-bit_and : (k r : ℕ) → k < 8 → r < 256 → clear_bit r k ≡ bit_and r (255 - 2 ^ k)
clear_bit-bit_and k r hk hr =
    let byte = byte_of k r hr in
    let position = position_of k r hr in
    sym (ap₂ (λ r k. clear_bit r k) byte position)
    ∙ agree_lem _ _ 2048 (k * 256 + r) (omega arith) clear_bit_table
    ∙ ap₂ (λ r k. bit_and r (255 - 2 ^ k)) byte position
