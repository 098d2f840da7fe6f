-- ===== src/Qcow/Read/Ends.antt =====
-- The loop of `qcow_read_sector_single` in hw/disk/qcow.c: its end, and what a failed read does to
-- it.
use kvmc.Prelude.{
  ℕ, zero, suc, ◌+◌, ◌-◌, ◌*◌, ◌/◌, ◌%◌, ◌^◌, ◌≤◌, ◌<◌, ◌≡◌, ◌≢◌, refl, sym, ◌∙◌, List, [], ◌∷◌,
  ◌++◌, true, false, Option, none, some, arith, ltb, leb, ◌==◌, length, min, Option-cases,
  Bool-cases, inl, inr, ◌⊎◌, replicate, get_elem?,
}
use kvmc.Qcow.{
  Put, File, Qcow, L2Table, Inflate, failed, overrun, bytes_read, Cluster, zeros, plain, packed,
  read_entry, read_table, cluster_size, get_cluster_offset, get_l1_index, l2t_offset_of,
  qcow_read_sector_single, unpack,
}
use kvmc.Qcow.Cache.{IsCoherent, disk_table}
use kvmc.Qcow.Read.{
  read_uncached, data_uncached, sectors_uncached, Answer-cases, read_sectors_lem, seen, unfinished,
  past_the_end, success, failure,
}

two_pow_pos : (n : ℕ) → 0 < 2 ^ n
two_pow_pos zero = omega arith
two_pow_pos (suc n) = omega (arith, two_pow_pos n)

module _ (f : File) (q : Qcow) (inflate : Inflate) (stale : List ℕ) where
  read_entry-count :
      (cluster : Cluster) (clust_offset len nr : ℕ) (got : List ℕ)
      → read_entry f q inflate stale cluster clust_offset len ≡ bytes_read nr got
      → nr ≡ len
  unfolding read_entry unpack
  read_entry-count zeros clust_offset len nr got e = cc
  read_entry-count (plain start) clust_offset len nr got e = ground arith
  read_entry-count (packed none count skip csize) clust_offset len nr got e = cc
  read_entry-count (packed (some at) count skip csize) clust_offset len nr got e = ground arith

  read_table-count :
      (offset len nr : ℕ) (got : List ℕ) (t : Option L2Table)
      → read_table f q inflate stale offset len t ≡ bytes_read nr got
      → nr ≡ len
  unfolding read_table
  read_table-count offset len nr got none e = cc
  read_table-count offset len nr got (some t) e = read_entry-count _ _ len nr got e

  module _ (offset dst_len : ℕ) where
    abbrev count : ℕ
    count = min (cluster_size q - get_cluster_offset q offset) dst_len

    count-pos : 0 < dst_len → 0 < count
    count-pos h = ground (arith, two_pow_pos q.cluster_bits)

    read_uncached-cases :
        (read_uncached f q inflate stale offset dst_len ≡ failed)
        ⊎ (read_uncached f q inflate stale offset dst_len ≡ bytes_read count (replicate count 0))
        ⊎ ((t : Option L2Table) × (read_uncached f q inflate stale offset dst_len
              ≡ read_table f q inflate stale offset count t))
    unfolding read_uncached
    read_uncached-cases = elim (Option-cases (get_elem? q.l1_table (get_l1_index q offset))) [
      | inl n ↦ inl (rw (read_uncached, n) refl)
      | inr (entry, y) ↦ elim (Bool-cases (l2t_offset_of q entry == 0)) [
        | inl hole ↦ inr (inl (rw (read_uncached, y, hole) refl))
        | inr there ↦
            inr (inr (disk_table f q (l2t_offset_of q entry), rw (read_uncached, y, there) refl))
      ]
    ]

    read_uncached-count :
        (nr : ℕ) (got : List ℕ)
        → read_uncached f q inflate stale offset dst_len ≡ bytes_read nr got
        → nr ≡ count
    read_uncached-count nr got e = elim read_uncached-cases [
      | inl n ↦ cc
      | inr (inl hole) ↦ cc
      | inr (inr (t, y)) ↦ read_table-count offset count nr got t (sym y ∙ e)
    ]

  ends_after :
      (fuel dst_len sector at nr_read : ℕ) (log : Put)
      → dst_len ≤ nr_read
      → sectors_uncached (suc fuel) f q inflate stale dst_len sector at nr_read log
        ≡ success log stale
  unfolding sectors_uncached
  ends_after fuel dst_len sector at nr_read log h = ground arith

  module _ (fuel dst_len sector at nr_read : ℕ) (log : Put) (more : nr_read < dst_len) where
    refused_after :
        q.size ≤ sector * 512 % 2 ^ 64
        → sectors_uncached (suc fuel) f q inflate stale dst_len sector at nr_read log ≡ failure log
    unfolding sectors_uncached
    refused_after out = ground arith

    overran_after :
        sector * 512 % 2 ^ 64 < q.size
        → read_uncached f q inflate stale (sector * 512 % 2 ^ 64) (dst_len - nr_read) ≡ overrun
        → sectors_uncached (suc fuel) f q inflate stale dst_len sector at nr_read log
          ≡ past_the_end log
    unfolding sectors_uncached
    overran_after inside e =
        let asked : ltb nr_read dst_len ≡ true = ground arith in
        let within : leb q.size (sector * 512 % 2 ^ 64) ≡ false = ground arith in
        rw (sectors_uncached, asked, within, e) refl

    failed_after :
        sector * 512 % 2 ^ 64 < q.size
        → read_uncached f q inflate stale (sector * 512 % 2 ^ 64) (dst_len - nr_read) ≡ failed
        → sectors_uncached (suc fuel) f q inflate stale dst_len sector at nr_read log
          ≡ sectors_uncached fuel f q inflate
              (data_uncached f q stale (sector * 512 % 2 ^ 64))
              dst_len
              (sector + (2 ^ 32 - 1) / 512)
              (at + (2 ^ 32 - 1))
              ((nr_read + (2 ^ 32 - 1)) % 2 ^ 32)
              log
    unfolding sectors_uncached
    failed_after inside e =
        let asked : ltb nr_read dst_len ≡ true = ground arith in
        let within : leb q.size (sector * 512 % 2 ^ 64) ≡ false = ground arith in
        rw (sectors_uncached, asked, within, e) refl

    read_after :
        (nr : ℕ) (got : List ℕ)
        → 0 < nr
        → sector * 512 % 2 ^ 64 < q.size
        → read_uncached f q inflate stale (sector * 512 % 2 ^ 64) (dst_len - nr_read)
          ≡ bytes_read nr got
        → sectors_uncached (suc fuel) f q inflate stale dst_len sector at nr_read log
          ≡ sectors_uncached fuel f q inflate
              (data_uncached f q stale (sector * 512 % 2 ^ 64))
              dst_len
              (sector + nr / 512)
              (at + nr)
              ((nr_read + nr) % 2 ^ 32)
              (log ++ ((at, got) ∷ []))
    unfolding sectors_uncached
    read_after nr got some_read inside e =
        let asked : ltb nr_read dst_len ≡ true = ground arith in
        let within : leb q.size (sector * 512 % 2 ^ 64) ≡ false = ground arith in
        let nonzero : (nr == 0) ≡ false = ground arith in
        rw (sectors_uncached, asked, within, e, nonzero) refl

module _ (f : File) (q : Qcow) (inflate : Inflate) (stale : List ℕ) where
  failed_loop :
      (fuel sector dst_len : ℕ)
      → 0 < dst_len
      → dst_len < 2 ^ 32
      → sector * 512 % 2 ^ 64 < q.size
      → read_uncached f q inflate stale (sector * 512 % 2 ^ 64) dst_len ≡ failed
      → sectors_uncached (suc (suc fuel)) f q inflate stale dst_len sector 0 0 []
        ≡ success [] (data_uncached f q stale (sector * 512 % 2 ^ 64))
  failed_loop fuel sector dst_len some_asked word within e =
      let all : dst_len - 0 ≡ dst_len = omega arith in
      failed_after f q inflate stale (suc fuel) dst_len sector 0 0 [] some_asked within (rw all e)
      ∙ ends_after f q inflate _ fuel dst_len _ _ _ [] (omega arith)

  -- With memory for a table and a coherent cache of at most 32 tables, a read of between 1 and
  -- 2 ^ 32 - 1 bytes, from a sector inside the image, whose first cluster cannot be read,
  -- answers success, and no byte has been put.
  failed_read :
      (fuel sector dst_len : ℕ) (c : List L2Table)
      → IsCoherent f q c
      → length c ≤ 32
      → 0 < dst_len
      → dst_len < 2 ^ 32
      → sector * 512 % 2 ^ 64 < q.size
      → read_uncached f q inflate stale (sector * 512 % 2 ^ 64) dst_len ≡ failed
      → seen (qcow_read_sector_single (suc (suc fuel)) f q inflate stale true sector dst_len c)
        ≡ success [] (data_uncached f q stale (sector * 512 % 2 ^ 64))
  unfolding qcow_read_sector_single
  failed_read fuel sector dst_len c h small some_asked word within e =
      read_sectors_lem f q inflate dst_len (suc (suc fuel)) stale sector 0 0 [] c h small
      ∙ failed_loop fuel sector dst_len some_asked word within e

module _ (f : File) (q : Qcow) (inflate : Inflate)
    (readable : (stale : List ℕ) (offset len : ℕ)
      → offset < q.size
      → read_uncached f q inflate stale offset len ≢ failed) where
  ends :
      (stale : List ℕ) (fuel dst_len sector at nr_read : ℕ) (log put : Put)
      → dst_len - nr_read < fuel
      → dst_len < 2 ^ 32
      → sectors_uncached fuel f q inflate stale dst_len sector at nr_read log ≢ unfinished put
  ends stale zero dst_len sector at nr_read log put enough word = absurd (omega arith)
  ends stale (suc fuel) dst_len sector at nr_read log put enough word =
      let offset = sector * 512 % 2 ^ 64 in
      elim (Bool-cases (ltb nr_read dst_len)) [
        | inr over ↦
            let o : dst_len ≤ nr_read = ground arith in
            λ p.
              let r = sym (ends_after f q inflate stale fuel dst_len sector at nr_read log o) ∙ p in
              cc
        | inl asked ↦
            let more : nr_read < dst_len = ground arith in
            elim (Bool-cases (leb q.size offset)) [
              | inl out ↦
                  let past : q.size ≤ offset = ground arith in
                  λ p.
                    let r =
                      sym (
                        refused_after f q inflate stale fuel dst_len sector at nr_read log more
                          past)
                      ∙ p in
                    cc
              | inr inside ↦
                  let within : offset < q.size = ground arith in
                  elim (Answer-cases (read_uncached f q inflate stale offset (dst_len - nr_read))) [
                    | inl e ↦ absurd (readable stale _ _ within e)
                    | inr (inl e) ↦ λ p.
                        let r =
                          sym (
                            overran_after f q inflate stale fuel dst_len sector at nr_read log more
                              within e)
                          ∙ p in
                        cc
                    | inr (inr (nr, got, e)) ↦
                        let is_count =
                          read_uncached-count f q inflate stale offset (dst_len - nr_read) nr got
                            e in
                        let some_read =
                          count-pos f q inflate stale offset (dst_len - nr_read) (omega arith) in
                        λ p.
                          ends (data_uncached f q stale offset) fuel dst_len _ _ _ _ put
                            (omega (arith, is_count, some_read)) word
                            (sym (
                                read_after f q inflate stale fuel dst_len sector at nr_read log more
                                  nr got (omega arith) within e)
                              ∙ p)
                  ]
            ]
      ]

  -- The loop ends if no read of a cluster of the image fails, whatever `cluster_data` holds, with
  -- memory for a table and a coherent cache of at most 32 tables: for fewer than 2 ^ 32 bytes, fuel
  -- of one more than the bytes that are asked for is enough.
  pub read_ends :
      (stale : List ℕ) (fuel sector dst_len : ℕ) (c : List L2Table) (put : Put)
      → IsCoherent f q c
      → length c ≤ 32
      → dst_len < 2 ^ 32
      → dst_len < fuel
      → seen (qcow_read_sector_single fuel f q inflate stale true sector dst_len c) ≢ unfinished put
  unfolding qcow_read_sector_single
  read_ends stale fuel sector dst_len c put h small word enough p =
      ends stale fuel dst_len sector 0 0 [] put (omega arith) word
        (sym (read_sectors_lem f q inflate dst_len fuel stale sector 0 0 [] c h small) ∙ p)
