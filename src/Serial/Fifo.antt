-- ===== src/Serial/Fifo.antt =====
-- The receive buffer of hw/serial.c as a queue.
use kvmc.Prelude.{
  ℕ, zero, suc, ◌+◌, ◌-◌, ◌<◌, ◌≡◌, refl, ap, ◌≢◌, List, [], ◌∷◌, ◌++◌, arith, length, get_or, set,
  get_or-set_self, get_or-set_ne, ◌∙◌,
}
use mathlib.Core.Path.{ap₂}
use kvmc.Serial.{Serial}

-- The `n` bytes of a buffer from `start` on.
abbrev pub slice : List ℕ → ℕ → ℕ → List ℕ
slice q start zero = []
slice q start (suc n) = get_or q start 0 ∷ slice q (start + 1) n

-- The received bytes that the guest has not read yet.
abbrev pub unread : Serial → List ℕ
unread dev = slice dev.rxbuf dev.rxdone (dev.rxcnt - dev.rxdone)

pub slice_of_pos :
    (q : List ℕ) (start n : ℕ)
    → n ≢ 0
    → slice q start n ≡ get_or q start 0 ∷ slice q (start + 1) (n - 1)
slice_of_pos q start zero h = absurd (h refl)
slice_of_pos q start (suc n) h = ap (λ k. slice q start (suc k)) (omega arith)

slice-set_next :
    (q : List ℕ) (start n i c : ℕ)
    → i < length q
    → i ≡ start + n
    → slice (set q i c) start (suc n) ≡ slice q start n ++ (c ∷ [])
slice-set_next q start zero i c hi e =
    ap (λ x. x ∷ [])
      (ap (λ j. get_or (set q i c) j 0) {x = start} {y = i} (omega arith)
        ∙ get_or-set_self q i c 0 hi)
slice-set_next q start (suc n) i c hi e =
    ap₂ ◌∷◌ (get_or-set_ne q {i = i} {j = start} c 0 (omega arith))
      (slice-set_next q (start + 1) n i c hi (omega arith))

-- A byte written behind the slice extends it.
pub slice-set :
    (q : List ℕ) (start n i c : ℕ)
    → i < length q
    → i ≡ start + n
    → slice (set q i c) start (n + 1) ≡ slice q start n ++ (c ∷ [])
slice-set q start n i c hi e =
    ap (slice (set q i c) start) {y = suc n} (omega arith) ∙ slice-set_next q start n i c hi e
