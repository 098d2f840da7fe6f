-- ===== src/Qcow/Tests.antt =====
-- Images and reads on which hw/disk/qcow.c is run.
use kvmc.Prelude.{
  ℕ, ◌/◌, ◌%◌, ◌^◌, ◌<◌, ◌≡◌, ◌≢◌, refl, List, [], ◌∷◌, true, none, some, arith, ltb, ◌==◌,
  if◌then◌else◌, Bool-cases, inl, inr,
}
use kvmc.Qcow.{
  File, Qcow, L2Table, Inflate, failed, table_of, read_table, read_entry, qcow2_entry,
  qcow_read_l2_table, qcow_read_sector_single, qcow_read_sector,
}
use kvmc.Qcow.Cache.{IsRead, disk_table, IsCoherent, qcow_read_l2_table_lem}
use kvmc.Qcow.Read.{read_uncached, seen, unfinished}
use kvmc.Qcow.Read.Buffers.{buffers_uncached, qcow_read_sector_lem}
use kvmc.Qcow.Read.Ends.{read_ends}

-- A file with an L2 table at 512, whose first entry is the cluster at 1024 and whose second is none.
abbrev file : File
file = record {
  bytes = λ i. if i == 518 then 4 else (if ltb i 1024 then 0 else 7);
  read = λ offset count. some count;
}

-- The same file, of which nothing behind the tables can be read.
abbrev broken : File
broken = record {
  bytes = file.bytes;
  read = λ offset count. if ltb offset 1024 then some count else none;
}

abbrev image : Qcow
image = record {
  version = 2;
  size = 1024;
  cluster_bits = 9;
  l2_bits = 1;
  l1_table = 512 ∷ [];
  csize_shift = 61;
  csize_bits = 1;
  cluster_offset_bits = 61;
}

abbrev inflate : Inflate
inflate n xs = none

abbrev cached : List L2Table
cached = table_of file 16 512 ∷ []

cached-IsCoherent : IsCoherent file image cached
unfolding disk_table
cached-IsCoherent = (refl, tt)

broken_failed : read_uncached broken image inflate [] 0 100 ≡ failed
unfolding read_uncached read_table disk_table read_entry qcow2_entry
broken_failed = refl

qcow_read_l2_table_lem_example :
    IsRead file image 512 (qcow_read_l2_table file image true 512 cached)
qcow_read_l2_table_lem_example =
    qcow_read_l2_table_lem file image 512 cached cached-IsCoherent (omega arith)

qcow_read_sector_lem_example :
    qcow_read_sector 8 file image inflate [] true 0 (100 ∷ 512 ∷ []) cached
    ≡ buffers_uncached file image inflate 8 [] 0 (100 ∷ 512 ∷ [])
qcow_read_sector_lem_example =
    qcow_read_sector_lem file image inflate 8 0 (100 ∷ 512 ∷ []) [] cached cached-IsCoherent
      (omega arith)

readable :
    (stale : List ℕ) (offset len : ℕ)
    → offset < 1024
    → read_uncached file image inflate stale offset len ≢ failed
unfolding read_uncached read_table disk_table read_entry qcow2_entry
readable stale offset len h =
    let first : offset / 2 ^ 10 ≡ 0 = omega arith in
    elim (Bool-cases (offset / 2 ^ 9 % 2 ^ 1 == 0)) [
      | inl even ↦
          let zero_index : offset / 2 ^ 9 % 2 ^ 1 ≡ 0 = ground arith in
          rw (read_uncached, read_table, disk_table, qcow2_entry, first, zero_index)
            (λ p. absurd (ground arith))
      | inr odd ↦
          let one_index : offset / 2 ^ 9 % 2 ^ 1 ≡ 1 = ground arith in
          rw (read_uncached, read_table, disk_table, qcow2_entry, first, one_index)
            (λ p. absurd (ground arith))
    ]

read_ends_example :
    seen (qcow_read_sector_single 601 file image inflate [] true 0 600 cached) ≢ unfinished []
read_ends_example =
    read_ends file image inflate readable [] 601 0 600 cached [] cached-IsCoherent (omega arith)
      (omega arith) (omega arith)
