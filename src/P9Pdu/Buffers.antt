-- ===== src/P9Pdu/Buffers.antt =====
-- A pdu's buffers as one sequence of bytes.
use kvmc.Prelude.{
  ℕ, zero, suc, ◌+◌, ◌-◌, ◌≤◌, ◌≡◌, refl, sym, ap, ◌∙◌, List, [], ◌∷◌, ◌++◌, arith, length, take,
  drop, min, length-append, take-append, drop-append, length-drop, take-all, drop-length_le,
}
use native.Mathlib.Decide.{dec_lt, ℕ_discrete}
use kvmc.P9Pdu.{Pdu, gather, pdu_read, splice, scatter, pdu_write}

-- The bytes of some buffers, in order.
abbrev pub content : List (List ℕ) → List ℕ
content [] = []
content (v ∷ vs) = v ++ content vs

take-min : (k n : ℕ) (xs : List ℕ) → k ≡ min (length xs) n → take k xs ≡ take n xs
take-min k zero xs h = ground arith
take-min k (suc n) [] h = ground arith
take-min zero (suc n) (x ∷ xs) h = absurd (omega arith)
take-min (suc k) (suc n) (x ∷ xs) h = ap (λ z. x ∷ z) (take-min k n xs (omega arith))

gather_lem :
    (vs : List (List ℕ)) (offset size : ℕ)
    → gather vs offset size ≡ take size (drop offset (content vs))
unfolding gather
gather_lem [] offset size =
    rw (drop-length_le {A = ℕ} offset [] (omega arith)) (sym (take-all size [] (omega arith)))
gather_lem (v ∷ vs) offset size = elim (ℕ_discrete size 0) [
  | yes e ↦ ground arith
  | no n ↦ elim (dec_lt offset (length v)) [
    | no above ↦ ground (
      arith,
      gather_lem vs (offset - length v) size,
      drop-append offset v (content vs),
      drop-length_le offset v,
    )
    | yes inside ↦
        let len = min (length v - offset) size in
        let split = take-append size (drop offset v) (content vs) in
        let first = take-min len size (drop offset v) (omega (arith, length-drop {0} offset v)) in
        let left : size - length (drop offset v) ≡ size - len =
          omega (arith, length-drop {0} offset v) in
        let at : offset - length v ≡ 0 = omega arith in
        ground (
          arith,
          drop-append offset v (content vs),
          at,
          split,
          first,
          left,
          gather_lem vs 0 (size - len),
        )
  ]
]

splice-skip :
    (offset : ℕ) (d v c : List ℕ)
    → length v ≤ offset
    → splice offset d (v ++ c) ≡ v ++ splice (offset - length v) d c
splice-skip offset d [] c h = ap (λ o. splice o d c) {y = offset - 0} (omega arith)
splice-skip zero d (y ∷ v) c h = absurd (omega arith)
splice-skip (suc offset) d (y ∷ v) c h =
    ap (λ z. y ∷ z)
      (splice-skip offset d v c (omega arith)
        ∙ ap (λ o. v ++ splice o d c) {y = suc offset - length (y ∷ v)} (omega arith))

splice-into :
    (offset len : ℕ) (d v c : List ℕ)
    → offset ≤ length v
    → len ≡ min (length v - offset) (length d)
    → splice offset d (v ++ c) ≡ splice offset (take len d) v ++ splice 0 (drop len d) c
splice-into zero zero [] v c h e = ground arith
splice-into zero zero (x ∷ d) [] c h e = ground arith
splice-into zero zero (x ∷ d) (y ∷ v) c h e = absurd (omega arith)
splice-into zero (suc len) [] v c h e = absurd (omega arith)
splice-into zero (suc len) (x ∷ d) [] c h e = absurd (omega arith)
splice-into zero (suc len) (x ∷ d) (y ∷ v) c h e =
    ap (λ z. x ∷ z) (splice-into zero len d v c (omega arith) (omega arith))
splice-into (suc offset) len d [] c h e = absurd (omega arith)
splice-into (suc offset) len d (y ∷ v) c h e =
    ap (λ z. y ∷ z) (splice-into offset len d v c (omega arith) (omega arith))

pub length-splice : (offset : ℕ) (d c : List ℕ) → length (splice offset d c) ≡ length c
length-splice zero [] c = refl
length-splice zero (x ∷ d) [] = refl
length-splice zero (x ∷ d) (y ∷ c) = omega (arith, length-splice zero d c)
length-splice (suc n) d [] = refl
length-splice (suc n) d (y ∷ c) = omega (arith, length-splice n d c)

pub splice-nil : (offset : ℕ) (c : List ℕ) → splice offset [] c ≡ c
splice-nil zero c = refl
splice-nil (suc n) [] = refl
splice-nil (suc n) (y ∷ c) = ap (λ z. y ∷ z) (splice-nil n c)

scatter_lem :
    (vs : List (List ℕ)) (offset : ℕ) (d : List ℕ)
    → (content (scatter vs offset d).0 ≡ splice offset d (content vs))
      × ((scatter vs offset d).1 ≡ min (length d) (length (content vs) - offset))
unfolding scatter
scatter_lem [] zero [] = (refl, omega arith)
scatter_lem [] zero (x ∷ d) = (refl, omega arith)
scatter_lem [] (suc offset) d = (refl, omega arith)
scatter_lem (v ∷ vs) offset [] = (sym (splice-nil offset (v ++ content vs)), omega arith)
scatter_lem (v ∷ vs) offset (x ∷ d) = elim (dec_lt offset (length v)) [
  | no above ↦
      let (bytes, copied) = scatter_lem vs (offset - length v) (x ∷ d) in
      let len = length-append v (content vs) in
      ground (arith, bytes, copied, len, splice-skip offset (x ∷ d) v (content vs))
  | yes inside ↦
      let k = min (length v - offset) (length (x ∷ d)) in
      let (bytes, copied) = scatter_lem vs 0 (drop k (x ∷ d)) in
      let len = length-append v (content vs) in
      let left = length-drop k (x ∷ d) in
      ground (arith, bytes, copied, len, left, splice-into offset k (x ∷ d) v (content vs))
]

-- `virtio_p9_pdu_read` copies the bytes of all the buffers in one row, from the read offset on, as
-- many as are asked for and there, and goes on behind them.
pub pdu_read_lem :
    (size : ℕ) (p : Pdu)
    → let copied = take size (drop p.read_offset (content p.out_iov)) in
      pdu_read size p ≡ (copied, record p { read_offset = p.read_offset + length copied })
unfolding pdu_read
pdu_read_lem size p = rw (gather_lem p.out_iov p.read_offset size)

-- `virtio_p9_pdu_write` puts the bytes over those of all the buffers in one row, from the write
-- offset on, as far as the buffers go, leaves the other bytes, and goes on behind them.
pub pdu_write_lem :
    (d : List ℕ) (p : Pdu)
    → (content (pdu_write d p).in_iov ≡ splice p.write_offset d (content p.in_iov))
      × ((pdu_write d p).write_offset
          ≡ p.write_offset + min (length d) (length (content p.in_iov) - p.write_offset))
unfolding pdu_write
pdu_write_lem d p =
    let (bytes, copied) = scatter_lem p.in_iov p.write_offset d in (bytes, omega (arith, copied))

splice-empty : (offset : ℕ) (d : List ℕ) → splice offset d [] ≡ []
splice-empty zero [] = refl
splice-empty zero (x ∷ d) = refl
splice-empty (suc n) d = refl

pub splice-append :
    (offset : ℕ) (d e c : List ℕ)
    → splice offset (d ++ e) c ≡ splice (offset + length d) e (splice offset d c)
splice-append zero [] e c = ap (λ o. splice o e c) {x = 0} {y = 0 + 0} (omega arith)
splice-append zero (x ∷ d) e [] = sym (splice-empty (0 + length (x ∷ d)) e)
splice-append zero (x ∷ d) e (y ∷ c) = ground (arith, splice-append zero d e c)
splice-append (suc n) d e [] = sym (splice-empty (suc n + length d) e)
splice-append (suc n) d e (y ∷ c) =
    ap (λ z. y ∷ z) (splice-append n d e c)
    ∙ ap (λ o. splice o e (y ∷ splice n d c)) {x = suc (n + length d)} {y = suc n + length d}
        (omega arith)

pub drop-splice :
    (offset : ℕ) (d c : List ℕ)
    → offset + length d ≤ length c
    → drop offset (splice offset d c) ≡ d ++ drop (offset + length d) c
drop-splice zero [] c h = ap (λ o. drop o c) {x = 0} {y = 0 + 0} (omega arith)
drop-splice zero (x ∷ d) [] h = absurd (omega arith)
drop-splice zero (x ∷ d) (y ∷ c) h = ground (arith, drop-splice zero d c)
drop-splice (suc n) d [] h = absurd (omega arith)
drop-splice (suc n) d (y ∷ c) h =
    drop-splice n d c (omega arith)
    ∙ ap (λ o. d ++ drop o (y ∷ c)) {x = suc (n + length d)} {y = suc n + length d} (omega arith)

pub drop-drop : (a b : ℕ) (xs : List ℕ) → drop (a + b) xs ≡ drop b (drop a xs)
drop-drop zero b xs = ap (λ o. drop o xs) (omega arith)
drop-drop (suc a) b [] =
    rw (
      drop-length_le {A = ℕ} (suc a + b) [] (omega arith),
      drop-length_le {A = ℕ} b [] (omega arith),
    )
drop-drop (suc a) b (x ∷ xs) =
    ap (λ o. drop o (x ∷ xs)) {x = suc a + b} {y = suc (a + b)} (omega arith) ∙ drop-drop a b xs
