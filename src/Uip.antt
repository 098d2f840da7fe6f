-- ===== src/Uip.antt =====
-- src/net: the checksum of csum.c and the pool of packet buffers of buf.c.
pub mod Checksum
pub mod Buffers
mod Tests
use kvmc.Prelude.{
  ℕ, zero, suc, ◌+◌, ◌*◌, ◌-◌, ◌/◌, ◌%◌, List, [], ◌∷◌, Bool, true, false, Option, none, some, ltb,
  ◌==◌, if◌then◌else◌, set, get_elem?,
}

-- The sum of the 16-bit words of the bytes, little-endian, and of a last odd byte.
pub csum_words : ℕ → List ℕ → ℕ
csum_words sum [] = sum
csum_words sum (b ∷ []) = sum + b
csum_words sum (b ∷ c ∷ bs) = csum_words (sum + (b + 256 * c)) bs

-- `while (sum >> 16)`, on fuel.
pub csum_fold : ℕ → ℕ → ℕ
csum_fold zero sum = sum
csum_fold (suc fuel) sum =
    let rest = csum_fold fuel (sum % 65536 + sum / 65536) in if sum / 65536 == 0 then sum else rest

-- `uip_csum` over all the bytes; the answer is the complement in 16 bits.
pub uip_csum : ℕ → List ℕ → ℕ
uip_csum csum addr = let sum = csum_words csum addr in 65535 - csum_fold (suc sum) sum % 65536

-- UIP_BUF_STATUS_FREE, UIP_BUF_STATUS_INUSE, UIP_BUF_STATUS_USED
pub data BufStatus : Type 0 where
  free inuse used : BufStatus

-- The list of buffers of `struct uip_info`, by their states, with the two counters.
pub record Pool : Type 0 where
  pub bufs : List BufStatus
  pub buf_used_nr : ℕ
  pub buf_free_nr : ℕ

abbrev pub is : BufStatus → BufStatus → Bool
is free free = true
is inuse inuse = true
is used used = true
is _ _ = false

-- The first buffer of a state: its position.
pub find_status : BufStatus → List BufStatus → Option ℕ
find_status want [] = none
find_status want (b ∷ bs) =
    let rest : Option ℕ = elim (find_status want bs) [ none ↦ none | some i ↦ some (suc i) ] in
    if is b want then some zero else rest

-- How `uip_buf_get_used` and `uip_buf_get_free` end: still waiting for the counter, or with a
-- buffer, or with NULL.
pub data Got : Type 0 where
  waits : Got
  gets : Option ℕ → Pool → Got

-- The test `!(nr > 0)` of the wait.
abbrev not_positive : ℕ → Bool
not_positive nr = nr == 0

-- `uip_buf_get_used`
pub buf_get_used : Pool → Got
buf_get_used p = if not_positive p.buf_used_nr then waits else elim (find_status used p.bufs) [
  | none ↦ gets none p
  | some i ↦ gets (some i) (record p { bufs = set p.bufs i inuse; buf_used_nr = p.buf_used_nr - 1 })
]

-- `uip_buf_get_free`
pub buf_get_free : Pool → Got
buf_get_free p = if not_positive p.buf_free_nr then waits else elim (find_status free p.bufs) [
  | none ↦ gets none p
  | some i ↦ gets (some i) (record p { bufs = set p.bufs i inuse; buf_free_nr = p.buf_free_nr - 1 })
]

-- `uip_buf_set_used`
pub buf_set_used : ℕ → Pool → Pool
buf_set_used i p = record p { bufs = set p.bufs i used; buf_used_nr = p.buf_used_nr + 1 }

-- `uip_buf_set_free`
pub buf_set_free : ℕ → Pool → Pool
buf_set_free i p = record p { bufs = set p.bufs i free; buf_free_nr = p.buf_free_nr + 1 }
