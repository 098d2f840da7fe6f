-- ===== src/Uip/Checksum.antt =====
-- The Internet checksum of src/net/csum.c.
use kvmc.Prelude.{ℕ, zero, suc, ◌+◌, ◌*◌, ◌-◌, ◌/◌, ◌%◌, ◌<◌, ◌≡◌, refl, List, [], ◌∷◌, arith, ◌∙◌}
use mathlib.Core.Path.{ap}
use native.Mathlib.Decide.{dec_lt, ℕ_discrete}
use kvmc.Uip.{csum_words, csum_fold, uip_csum}

-- The folded sum has 16 bits, is the sum modulo 65535, and is zero for a zero sum only.
record Folded (sum out : ℕ) : Type 0 where
  small : out < 65536
  congruent : out % 65535 ≡ sum % 65535
  nonzero : 0 < sum → 0 < out

csum_fold-Folded : (fuel sum : ℕ) → sum < fuel → Folded sum (csum_fold fuel sum)
unfolding csum_fold
csum_fold-Folded zero sum h = absurd (omega arith)
csum_fold-Folded (suc fuel) sum h = elim (dec_lt sum 65536) [
  | yes fits ↦ ground arith
  | no big ↦
      let ih = csum_fold-Folded fuel (sum % 65536 + sum / 65536) (omega arith) in
      ground (arith, fold_step sum, ih.small, ih.congruent, ih.nonzero)
]
  where
    fold_step : (sum : ℕ) → (sum % 65536 + sum / 65536) % 65535 ≡ sum % 65535
    fold_step sum = omega arith

csum_words-add : (a b : ℕ) (bs : List ℕ) → csum_words (a + b) bs ≡ a + csum_words b bs
unfolding csum_words
csum_words-add a b [] = refl
csum_words-add a b (x ∷ []) = omega arith
csum_words-add a b (x ∷ y ∷ bs) = omega (
  arith,
  ap (λ s. csum_words s bs) {x = a + b + (x + 256 * y)} {y = a + (b + (x + 256 * y))} (omega arith),
  csum_words-add a (b + (x + 256 * y)) bs,
)

-- The fold of `uip_csum` ends with the fuel that it has: for any bytes the checksum has 16 bits and
-- completes the sum of their words to a multiple of 65535.
uip_csum_completes :
    (bytes : List ℕ)
    → (uip_csum 0 bytes < 65536) × ((uip_csum 0 bytes + csum_words 0 bytes) % 65535 ≡ 0)
unfolding uip_csum
uip_csum_completes bytes =
    let sum = csum_words 0 bytes in
    let f = csum_fold-Folded (suc sum) sum (omega arith) in omega (arith, f.small, f.congruent)

csum_words-checked :
    (c : ℕ) (bytes : List ℕ) → csum_words 0 (c % 256 ∷ c / 256 ∷ bytes) ≡ c + csum_words 0 bytes
unfolding csum_words
csum_words-checked c bytes =
    ap (λ s. csum_words s bytes) {x = 0 + (c % 256 + 256 * (c / 256))} {y = c + 0} (omega arith)
    ∙ csum_words-add c 0 bytes

complement :
    (c sum out : ℕ) → (c + sum) % 65535 ≡ 0 → 0 < c + sum → Folded (c + sum) out → out ≡ 65535
complement c sum out h pos f = omega (arith, f.small, f.congruent, f.nonzero)

csum_of_fold :
    (bytes : List ℕ)
    → uip_csum 0 bytes ≡ 65535 - csum_fold (suc (csum_words 0 bytes)) (csum_words 0 bytes) % 65536
unfolding uip_csum
csum_of_fold bytes = refl

fold_zero : (sum : ℕ) → sum ≡ 0 → csum_fold (suc sum) sum ≡ 0
unfolding csum_fold
fold_zero sum e = ground arith

-- Checksum and words are not both zero.
some_bit : (bytes : List ℕ) → 0 < uip_csum 0 bytes + csum_words 0 bytes
some_bit bytes = elim (ℕ_discrete (csum_words 0 bytes) 0) [
  | yes e ↦ omega (arith, csum_of_fold bytes, fold_zero (csum_words 0 bytes) e)
  | no n ↦ omega arith
]

receiver_zero :
    (bytes : List ℕ) → uip_csum 0 (uip_csum 0 bytes % 256 ∷ uip_csum 0 bytes / 256 ∷ bytes) ≡ 0
receiver_zero bytes =
    let c = uip_csum 0 bytes in
    rw (csum_of_fold (c % 256 ∷ c / 256 ∷ bytes), csum_words-checked c bytes)
      (omega (
        arith,
        complement c (csum_words 0 bytes)
            (csum_fold (suc (c + csum_words 0 bytes)) (c + csum_words 0 bytes))
            (uip_csum_completes bytes).1 (some_bit bytes)
            (csum_fold-Folded (suc (c + csum_words 0 bytes)) (c + csum_words 0 bytes)
              (omega arith)),
      ))

-- For any bytes the fold of `uip_csum` ends, with a sum of 16 bits, within one round more than the sum has
-- units. The checksum has 16 bits and, added to the sum of the bytes' words, gives a multiple of
-- 65535. A receiver's check, the checksum of the bytes with their own checksum in the two bytes
-- before them, is zero.
pub uip_csum_verifies :
    (bytes : List ℕ)
    → (csum_fold (suc (csum_words 0 bytes)) (csum_words 0 bytes) / 65536 ≡ 0)
      × (uip_csum 0 bytes < 65536)
      × ((uip_csum 0 bytes + csum_words 0 bytes) % 65535 ≡ 0)
      × (uip_csum 0 (uip_csum 0 bytes % 256 ∷ uip_csum 0 bytes / 256 ∷ bytes) ≡ 0)
uip_csum_verifies bytes =
    let f = csum_fold-Folded (suc (csum_words 0 bytes)) (csum_words 0 bytes) (omega arith) in
    (
      omega (arith, f.small),
      (uip_csum_completes bytes).0,
      (uip_csum_completes bytes).1,
      receiver_zero bytes,
    )
