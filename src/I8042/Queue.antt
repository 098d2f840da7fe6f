-- ===== src/I8042/Queue.antt =====
-- The two ring buffers of the controller against first-in first-out queues.
use kvmc.Prelude.{
  ℕ, zero, suc, ◌+◌, ◌-◌, ◌%◌, ◌<◌, ◌≡◌, refl, ap, ◌≢◌, List, [], ◌∷◌, ◌++◌, arith, length, get_or,
  set, get_or-set_self, get_or-set_ne, ◌∙◌,
}
use mathlib.Core.Path.{ap₂}

-- The `n` bytes of a ring buffer from the running index `start` on.
abbrev pub window : List ℕ → ℕ → ℕ → List ℕ
window q start zero = []
window q start (suc n) = get_or q (start % 128) 0 ∷ window q (start + 1) n

pub length-window : (q : List ℕ) (start n : ℕ) → length (window q start n) ≡ n
length-window q start zero = refl
length-window q start (suc n) = ap suc (length-window q (start + 1) n)

-- `window` matches on `suc`, the code tests the count.
pub window_of_pos :
    (q : List ℕ) (start n : ℕ)
    → n ≢ 0
    → window q start n ≡ get_or q (start % 128) 0 ∷ window q (start + 1) (n - 1)
window_of_pos q start zero h = absurd (h refl)
window_of_pos q start (suc n) h = ap (λ k. window q start (suc k)) (omega arith)

window-set_next :
    (q : List ℕ) (start n i c : ℕ)
    → length q ≡ 128
    → n < 128
    → i ≡ start + n
    → window (set q (i % 128) c) start (suc n) ≡ window q start n ++ (c ∷ [])
window-set_next q start zero i c hq hn e =
    ap (λ x. x ∷ [])
      (ap (λ j. get_or (set q (i % 128) c) (j % 128) 0) {x = start} {y = i} (omega arith)
        ∙ get_or-set_self q (i % 128) c 0 (omega arith))
window-set_next q start (suc n) i c hq hn e =
    ap₂ ◌∷◌ (get_or-set_ne q {i = i % 128} {j = start % 128} c 0 (omega arith))
      (window-set_next q (start + 1) n i c hq (omega arith) (omega arith))

-- Writing at the index behind a window that is not full extends it by the byte.
pub window-set :
    (q : List ℕ) (start n i c : ℕ)
    → length q ≡ 128
    → n < 128
    → i ≡ start + n
    → window (set q (i % 128) c) start (n + 1) ≡ window q start n ++ (c ∷ [])
window-set q start n i c hq hn e =
    ap (window (set q (i % 128) c) start) {y = suc n} (omega arith)
    ∙ window-set_next q start n i c hq hn e
