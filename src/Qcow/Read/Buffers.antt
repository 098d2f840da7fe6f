-- ===== src/Qcow/Read/Buffers.antt =====
-- `qcow_read_sector` in hw/disk/qcow.c: the reads of several buffers, one after the other.
use kvmc.Prelude.{
  ℕ, zero, suc, ◌+◌, ◌-◌, ◌/◌, ◌%◌, ◌^◌, ◌*◌, ◌≤◌, ◌≡◌, refl, ap, ◌∙◌, List, [], ◌∷◌, ◌++◌, true,
  length, ltb, leb, ◌==◌, Bool-cases, inl, inr,
}
use kvmc.Qcow.{
  File, Qcow, L2Table, Inflate, Sectors, refused, overran, no_fuel, finished, Put, minus_one,
  outside, out_of_fuel, Total, stopped, total, and_more, qcow_read_cluster, read_sectors,
  qcow_read_sector_single, qcow_read_sector,
}
use kvmc.Qcow.Cache.{IsCoherent}
use kvmc.Qcow.Read.{
  read_uncached, qcow_read_cluster_lem, Answer-cases, Seen, failure, past_the_end, unfinished,
  success, seen, sectors_uncached, read_sectors_lem,
}

module _ (f : File) (q : Qcow) (inflate : Inflate) where
  -- The cache that a read leaves.
  abbrev Leaves : Sectors → Type 0
  Leaves (refused log) = Unit
  Leaves (overran log) = Unit
  Leaves (no_fuel log) = Unit
  Leaves (finished log data' c) = IsCoherent f q c × (length c ≤ 32)

  read_sectors-Leaves :
      (dst_len fuel : ℕ) (stale : List ℕ) (sector at nr_read : ℕ) (log : Put) (c : List L2Table)
      → IsCoherent f q c
      → length c ≤ 32
      → Leaves (read_sectors fuel f q inflate stale true dst_len sector at nr_read log c)
  unfolding read_sectors
  read_sectors-Leaves dst_len zero stale sector at nr_read log c h small = tt
  read_sectors-Leaves dst_len (suc fuel) stale sector at nr_read log c h small =
      let offset = sector * 512 % 2 ^ 64 in
      let r = qcow_read_cluster_lem f q inflate stale offset (dst_len - nr_read) c h small in
      let c' = (qcow_read_cluster f q inflate stale true offset (dst_len - nr_read) c).2 in
      elim (Bool-cases (ltb nr_read dst_len)) [
        | inr over ↦ rw (read_sectors, over) (h, small)
        | inl more ↦ elim (Bool-cases (leb q.size offset)) [
          | inl out ↦ rw (read_sectors, more, out) tt
          | inr within ↦
              elim (Answer-cases (read_uncached f q inflate stale offset (dst_len - nr_read))) [
                | inl e ↦
                    rw (read_sectors, more, within, r.0, e)
                      (read_sectors-Leaves dst_len fuel _ _ _ _ log c' r.2 r.3)
                | inr (inl e) ↦ rw (read_sectors, more, within, r.0, e) tt
                | inr (inr (nr, got, e)) ↦ elim (Bool-cases (nr == 0)) [
                  | inl z ↦ rw (read_sectors, more, within, r.0, e, z) tt
                  | inr nz ↦
                      rw (read_sectors, more, within, r.0, e, nz)
                        (read_sectors-Leaves dst_len fuel _ _ _ _ (log ++ ((at, got) ∷ [])) c' r.2
                          r.3)
                ]
              ]
        ]
      ]

  -- A buffer's read, and the reads of the other buffers by what `cluster_data` then holds.
  abbrev pub after : ℕ → Seen → (List ℕ → Total) → Total
  after len (failure log) rest = stopped minus_one (log ∷ [])
  after len (past_the_end log) rest = stopped outside (log ∷ [])
  after len (unfinished log) rest = stopped out_of_fuel (log ∷ [])
  after len (success log data') rest = and_more len log (rest data')

  -- The reads of several buffers by the file alone.
  pub buffers_uncached : ℕ → List ℕ → ℕ → List ℕ → Total
  buffers_uncached fuel stale sector [] = total 0 []
  buffers_uncached fuel stale sector (len ∷ lens) =
      after len (sectors_uncached fuel f q inflate stale len sector 0 0 [])
        (λ data'. buffers_uncached fuel data' (sector + len / 512) lens)

  single :
      (fuel sector len : ℕ) (lens stale : List ℕ) (s : Sectors) (c : List L2Table)
      → qcow_read_sector_single fuel f q inflate stale true sector len c ≡ s
      → Leaves s
      → ((data' : List ℕ) (c' : List L2Table)
          → IsCoherent f q c'
          → length c' ≤ 32
          → qcow_read_sector fuel f q inflate data' true (sector + len / 512) lens c'
            ≡ buffers_uncached fuel data' (sector + len / 512) lens)
      → qcow_read_sector fuel f q inflate stale true sector (len ∷ lens) c
        ≡ after len (seen s) (λ data'. buffers_uncached fuel data' (sector + len / 512) lens)
  unfolding qcow_read_sector
  single fuel sector len lens stale (refused log) c e l rest = rw (qcow_read_sector, e) refl
  single fuel sector len lens stale (overran log) c e l rest = rw (qcow_read_sector, e) refl
  single fuel sector len lens stale (no_fuel log) c e l rest = rw (qcow_read_sector, e) refl
  single fuel sector len lens stale (finished log data' c') c e l rest =
      rw (qcow_read_sector, e) (ap (λ t. and_more len log t) (rest data' c' l.0 l.1))

  -- With memory for a table, `qcow_read_sector` with a coherent cache of at most 32 tables ends as the
  -- reads by the file alone do, from the same contents of `cluster_data` and with as many rounds: with
  -- the total, with -1, outside an array or out of rounds; and each buffer has got the same bytes up
  -- to then.
  pub qcow_read_sector_lem :
      (fuel sector : ℕ) (lens stale : List ℕ) (c : List L2Table)
      → IsCoherent f q c
      → length c ≤ 32
      → qcow_read_sector fuel f q inflate stale true sector lens c
        ≡ buffers_uncached fuel stale sector lens
  unfolding qcow_read_sector buffers_uncached qcow_read_sector_single
  qcow_read_sector_lem fuel sector [] stale c h small = refl
  qcow_read_sector_lem fuel sector (len ∷ lens) stale c h small =
      single fuel sector len lens stale _ c refl
        (read_sectors-Leaves len fuel stale sector 0 0 [] c h small)
        (λ data'. qcow_read_sector_lem fuel (sector + len / 512) lens data')
      ∙ ap (λ s. after len s (λ data'. buffers_uncached fuel data' (sector + len / 512) lens))
          (read_sectors_lem f q inflate len fuel stale sector 0 0 [] c h small)
