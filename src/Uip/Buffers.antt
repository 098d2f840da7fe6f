-- ===== src/Uip/Buffers.antt =====
-- The counters of the buffer pool of src/net/buf.c against the states of its buffers.
use kvmc.Prelude.{
  ℕ, zero, suc, ◌+◌, ◌-◌, ◌<◌, ◌≡◌, List, [], ◌∷◌, some, arith, if◌then◌else◌, set, get_elem?,
}
use kvmc.Uip.{
  BufStatus, free, inuse, used, Pool, is, find_status, gets, buf_get_used, buf_get_free,
  buf_set_used, buf_set_free,
}

-- How many buffers are in a state.
unfoldable pub count : BufStatus → List BufStatus → ℕ
count s [] = 0
count s (b ∷ bs) = (if is b s then 1 else 0) + count s bs

-- The counters tell how many buffers are used and free.
pub record IsCounted (p : Pool) : Type 0 where
  pub used_counted : p.buf_used_nr ≡ count used p.bufs
  pub free_counted : p.buf_free_nr ≡ count free p.bufs

-- A buffer that is found, and what taking it does to the counts; `gone` counts the state wanted
-- and `kept` the other.
record Found (want gone kept : BufStatus) (bs : List BufStatus) (i : ℕ) : Type 0 where
  hit : find_status want bs ≡ some i
  there : get_elem? bs i ≡ some want
  taken : get_elem? (set bs i inuse) i ≡ some inuse
  fewer : count gone (set bs i inuse) + 1 ≡ count gone bs
  same : count kept (set bs i inuse) ≡ count kept bs

find_used : (bs : List BufStatus) → 0 < count used bs → (i : ℕ) × Found used used free bs i
unfolding find_status count
find_used [] h = absurd (omega arith)
find_used (used ∷ bs) h = (0, ground arith)
find_used (free ∷ bs) h = let (i, f) = find_used bs (omega arith) in (suc i, ground (arith, f.hit))
find_used (inuse ∷ bs) h = let (i, f) = find_used bs (omega arith) in (suc i, ground (arith, f.hit))

find_free : (bs : List BufStatus) → 0 < count free bs → (i : ℕ) × Found free free used bs i
unfolding find_status count
find_free [] h = absurd (omega arith)
find_free (free ∷ bs) h = (0, ground arith)
find_free (used ∷ bs) h = let (i, f) = find_free bs (omega arith) in (suc i, ground (arith, f.hit))
find_free (inuse ∷ bs) h = let (i, f) = find_free bs (omega arith) in (suc i, ground (arith, f.hit))

-- With right counters and a used buffer in the pool, `uip_buf_get_used` does not wait: it answers a
-- buffer that was used, never NULL, marks it in use and keeps the counters right.
buf_get_used_lem :
    (p : Pool)
    → IsCounted p
    → 0 < count used p.bufs
    → (i : ℕ) × (p' : Pool) × (buf_get_used p ≡ gets (some i) p')
      × (get_elem? p.bufs i ≡ some used)
      × (get_elem? p'.bufs i ≡ some inuse)
      × IsCounted p'
unfolding buf_get_used
buf_get_used_lem p c h =
    let (i, f) = find_used p.bufs h in
    (
      i,
      record p { bufs = set p.bufs i inuse; buf_used_nr = p.buf_used_nr - 1 },
      ground (arith, f.hit),
      f.there,
      f.taken,
      ground (arith, f.fewer, f.same),
    )

-- With right counters and a free buffer in the pool, `uip_buf_get_free` does not wait: it answers a
-- buffer that was free, never NULL, marks it in use and keeps the counters right.
buf_get_free_lem :
    (p : Pool)
    → IsCounted p
    → 0 < count free p.bufs
    → (i : ℕ) × (p' : Pool) × (buf_get_free p ≡ gets (some i) p')
      × (get_elem? p.bufs i ≡ some free)
      × (get_elem? p'.bufs i ≡ some inuse)
      × IsCounted p'
unfolding buf_get_free
buf_get_free_lem p c h =
    let (i, f) = find_free p.bufs h in
    (
      i,
      record p { bufs = set p.bufs i inuse; buf_free_nr = p.buf_free_nr - 1 },
      ground (arith, f.hit),
      f.there,
      f.taken,
      ground (arith, f.fewer, f.same),
    )

count-set :
    (bs : List BufStatus) (i : ℕ)
    → get_elem? bs i ≡ some inuse
    → (count used (set bs i used) ≡ count used bs + 1)
      × (count free (set bs i used) ≡ count free bs)
      × (count free (set bs i free) ≡ count free bs + 1)
      × (count used (set bs i free) ≡ count used bs)
unfolding count
count-set [] i e = ground arith
count-set (b ∷ bs) zero e = ground arith
count-set (b ∷ bs) (suc i) e = ground (arith, count-set bs i e)

-- Giving back a buffer that is in use, as used or as free, keeps the counters right.
buf_set-IsCounted :
    (p : Pool) (i : ℕ)
    → IsCounted p
    → get_elem? p.bufs i ≡ some inuse
    → IsCounted (buf_set_used i p) × IsCounted (buf_set_free i p)
unfolding buf_set_used buf_set_free
buf_set-IsCounted p i c e = ground (arith, count-set p.bufs i e)
