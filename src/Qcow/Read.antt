-- ===== src/Qcow/Read.antt =====
-- Reading clusters and sectors in hw/disk/qcow.c.
pub mod Ends
pub mod Buffers
use kvmc.Prelude.{
  ℕ, zero, suc, ◌+◌, ◌-◌, ◌*◌, ◌/◌, ◌%◌, ◌^◌, ◌≤◌, ◌<◌, ◌≡◌, refl, sym, ap, ◌∙◌, List, [], ◌∷◌,
  ◌++◌, Bool, true, false, Option, none, some, arith, ltb, leb, ◌==◌, if◌then◌else◌, length, min,
  get_elem?, replicate, All, Option-cases, Bool-cases, inl, inr, ◌≢◌, ◌⊎◌,
}
use kvmc.Qcow.{
  Put, table_data, File, Qcow, L2Table, Inflate, Answer, failed, overrun, bytes_read, Sectors,
  refused, overran, no_fuel, finished, cluster_size, get_l1_index, get_l2_index, get_cluster_offset,
  l2t_offset_of, entry_of, read_table, qcow_read_l2_table, qcow_read_cluster, read_sectors,
  qcow_read_sector_single,
}
use kvmc.Qcow.Cache.{disk_table, IsCoherent, IsRead, qcow_read_l2_table_lem}

-- A read of a cluster by the file alone, without a cache.
unfoldable pub read_uncached : File → Qcow → Inflate → List ℕ → ℕ → ℕ → Answer
read_uncached f q inflate stale offset dst_len =
    let clust_offset = get_cluster_offset q offset in
    let length = min (cluster_size q - clust_offset) dst_len in
    elim (get_elem? q.l1_table (get_l1_index q offset)) [
      | none ↦ failed
      | some entry ↦
          if l2t_offset_of q entry == 0
          then bytes_read length (replicate length 0)
          else read_table f q inflate stale offset length (disk_table f q (l2t_offset_of q entry))
    ]

-- What it leaves in `cluster_data`.
unfoldable pub data_uncached : File → Qcow → List ℕ → ℕ → List ℕ
data_uncached f q stale offset = elim (get_elem? q.l1_table (get_l1_index q offset)) [
  | none ↦ stale
  | some entry ↦
      if l2t_offset_of q entry == 0
      then stale
      else table_data f q stale offset (disk_table f q (l2t_offset_of q entry))
]

-- With memory for a table, the read of a cluster with a coherent cache of at most 32 tables does what the read by the file alone does.
pub qcow_read_cluster_lem :
    (f : File) (q : Qcow) (inflate : Inflate) (stale : List ℕ) (offset dst_len : ℕ)
    (c : List L2Table)
    → IsCoherent f q c
    → length c ≤ 32
    → let (answer, data', c') = qcow_read_cluster f q inflate stale true offset dst_len c in
      (answer ≡ read_uncached f q inflate stale offset dst_len)
      × (data' ≡ data_uncached f q stale offset)
      × IsCoherent f q c'
      × (length c' ≤ 32)
unfolding qcow_read_cluster read_uncached data_uncached
qcow_read_cluster_lem f q inflate stale offset dst_len c h small =
    elim (Option-cases (get_elem? q.l1_table (get_l1_index q offset))) [
      | inl n ↦ rw (qcow_read_cluster, read_uncached, data_uncached, n) (refl, refl, h, small)
      | inr (entry, y) ↦ elim (Bool-cases (l2t_offset_of q entry == 0)) [
        | inl hole ↦
            rw (qcow_read_cluster, read_uncached, data_uncached, y, hole) (refl, refl, h, small)
        | inr there ↦
            let r = qcow_read_l2_table_lem f q (l2t_offset_of q entry) c h small in
            rw (qcow_read_cluster, read_uncached, data_uncached, y, there)
              (
                ap (read_table f q inflate stale offset _) r.0,
                ap (table_data f q stale offset) r.0,
                r.1,
                r.2,
              )
      ]
    ]

-- What a read of sectors shows but for the cache: its end, what it has put, and what `cluster_data`
-- holds for the next.
pub data Seen : Type 0 where
  failure : Put → Seen
  past_the_end : Put → Seen
  unfinished : Put → Seen
  success : Put → List ℕ → Seen

abbrev pub seen : Sectors → Seen
seen (refused log) = failure log
seen (overran log) = past_the_end log
seen (no_fuel log) = unfinished log
seen (finished log data' c) = success log data'

-- The loop by the file alone.
pub sectors_uncached : ℕ → File → Qcow → Inflate → List ℕ → ℕ → ℕ → ℕ → ℕ → Put → Seen
sectors_uncached zero f q inflate stale dst_len sector at nr_read log = unfinished log
sectors_uncached (suc fuel) f q inflate stale dst_len sector at nr_read log =
    elim (ltb nr_read dst_len) [
      | false ↦ success log stale
      | true ↦ elim (leb q.size (sector * 512 % 2 ^ 64)) [
        | true ↦ failure log
        | false ↦
            elim (read_uncached f q inflate stale (sector * 512 % 2 ^ 64) (dst_len - nr_read)) [
              | overrun ↦ past_the_end log
              | failed ↦
                  sectors_uncached fuel f q inflate
                    (data_uncached f q stale (sector * 512 % 2 ^ 64)) dst_len
                    (sector + (2 ^ 32 - 1) / 512) (at + (2 ^ 32 - 1))
                    ((nr_read + (2 ^ 32 - 1)) % 2 ^ 32) log
              | bytes_read nr got ↦ elim (nr == 0) [
                | true ↦ failure log
                | false ↦
                    sectors_uncached fuel f q inflate
                      (data_uncached f q stale (sector * 512 % 2 ^ 64)) dst_len (sector + nr / 512)
                      (at + nr) ((nr_read + nr) % 2 ^ 32) (log ++ ((at, got) ∷ []))
              ]
            ]
      ]
    ]

Answer-cases :
    (a : Answer)
    → (a ≡ failed) ⊎ (a ≡ overrun) ⊎ ((nr : ℕ) × (got : List ℕ) × (a ≡ bytes_read nr got))
Answer-cases failed = inl refl
Answer-cases overrun = inr (inl refl)
Answer-cases (bytes_read nr got) = inr (inr (nr, got, refl))

module _ (f : File) (q : Qcow) (inflate : Inflate) (dst_len : ℕ) where
  -- With memory for a table, a read of sectors with a coherent cache of at most 32 tables does what
  -- the read by the file alone does, with as many rounds.
  pub read_sectors_lem :
      (fuel : ℕ) (stale : List ℕ) (sector at nr_read : ℕ) (log : Put) (c : List L2Table)
      → IsCoherent f q c
      → length c ≤ 32
      → seen (read_sectors fuel f q inflate stale true dst_len sector at nr_read log c)
        ≡ sectors_uncached fuel f q inflate stale dst_len sector at nr_read log
  unfolding read_sectors sectors_uncached
  read_sectors_lem zero stale sector at nr_read log c h small = refl
  read_sectors_lem (suc fuel) stale sector at nr_read log c h small =
      let offset = sector * 512 % 2 ^ 64 in
      let r = qcow_read_cluster_lem f q inflate stale offset (dst_len - nr_read) c h small in
      let c' = (qcow_read_cluster f q inflate stale true offset (dst_len - nr_read) c).2 in
      elim (Bool-cases (ltb nr_read dst_len)) [
        | inr over ↦ rw (read_sectors, sectors_uncached, over) refl
        | inl more ↦ elim (Bool-cases (leb q.size offset)) [
          | inl out ↦ rw (read_sectors, sectors_uncached, more, out) refl
          | inr within ↦
              elim (Answer-cases (read_uncached f q inflate stale offset (dst_len - nr_read))) [
                | inl e ↦
                    rw (read_sectors, sectors_uncached, more, within, r.0, e, r.1)
                      (read_sectors_lem fuel _ _ _ _ log c' r.2 r.3)
                | inr (inl e) ↦ rw (read_sectors, sectors_uncached, more, within, r.0, e) refl
                | inr (inr (nr, got, e)) ↦ elim (Bool-cases (nr == 0)) [
                  | inl z ↦ rw (read_sectors, sectors_uncached, more, within, r.0, e, z) refl
                  | inr nz ↦
                      rw (read_sectors, sectors_uncached, more, within, r.0, e, nz, r.1)
                        (read_sectors_lem fuel _ _ _ _ (log ++ ((at, got) ∷ [])) c' r.2 r.3)
                ]
              ]
        ]
      ]
