-- ===== src/Qcow.antt =====
-- hw/disk/qcow.c: reading from a QCOW image of version 1 or 2. The image's file is its bytes, with
-- what `pread_in_full` answers for an offset and a count: how many bytes it has read, at most the
-- count, or `none` for -1. The cache of L2 tables is the list in the order of its use, the least
-- recently used table first; the tree of the same tables by offset is a search in that list. `inflate`
-- is the decompression of zlib, for a size of the output; `none` is a failure. `malloc` says whether
-- memory is given for a table.
pub mod Cache
pub mod Read
mod Tests
use kvmc.Prelude.{
  ℕ, zero, suc, ◌+◌, ◌-◌, ◌*◌, ◌/◌, ◌%◌, ◌^◌, List, [], ◌∷◌, ◌++◌, Bool, true, false, not, Option,
  none, some, ltb, leb, ◌==◌, if◌then◌else◌, length, take, drop, min, get_elem?, replicate,
  test_bit, clear_bit,
}

pub record File : Type 0 where
  pub bytes : ℕ → ℕ
  pub read : ℕ → ℕ → Option ℕ

-- The bytes of a file, or of any memory, from an offset on.
abbrev pub bytes_at : (ℕ → ℕ) → ℕ → ℕ → List ℕ
bytes_at bytes offset zero = []
bytes_at bytes offset (suc n) = bytes offset ∷ bytes_at bytes (offset + 1) n

-- `be64_to_cpu` of eight bytes.
abbrev pub be64 : (ℕ → ℕ) → ℕ
be64 b =
    b 7
    + 2 ^ 8 * b 6
    + 2 ^ 16 * b 5
    + 2 ^ 24 * b 4
    + 2 ^ 32 * b 3
    + 2 ^ 40 * b 2
    + 2 ^ 48 * b 1
    + 2 ^ 56 * b 0

-- `struct qcow` with its header, and the L1 table in the host's order. The masks `csize_mask` and
-- `cluster_offset_mask` are given by the number of their ones.
pub record Qcow : Type 0 where
  pub version : ℕ
  pub size : ℕ
  pub cluster_bits : ℕ
  pub l2_bits : ℕ
  pub l1_table : List ℕ
  pub csize_shift : ℕ
  pub csize_bits : ℕ
  pub cluster_offset_bits : ℕ

-- `q->cluster_size`
abbrev pub cluster_size : Qcow → ℕ
cluster_size q = 2 ^ q.cluster_bits

-- `struct qcow_l2_table`, with its entries in the host's order.
pub record L2Table : Type 0 where
  pub offset : ℕ
  pub table : ℕ → ℕ

-- `l2_table_lookup`
pub l2_table_lookup : List L2Table → ℕ → Option L2Table
l2_table_lookup [] offset = none
l2_table_lookup (t ∷ ts) offset = if t.offset == offset then some t else l2_table_lookup ts offset

-- `list_del` of the table of an offset.
pub detach : List L2Table → ℕ → List L2Table
detach [] offset = []
detach (t ∷ ts) offset = if t.offset == offset then ts else t ∷ detach ts offset

-- `l2_table_search`
pub l2_table_search : ℕ → List L2Table → Option L2Table × List L2Table
l2_table_search offset c = elim (l2_table_lookup c offset) [
  | none ↦ (none, c)
  | some t ↦ (some t, detach c offset ++ (t ∷ []))
]

-- `cache_table`, with MAX_CACHE_NODES.
pub cache_table : L2Table → List L2Table → List L2Table
cache_table t c = (if length c == 32 then drop 1 c else c) ++ (t ∷ [])

-- A table of which `got` bytes have been read into zeroed memory.
abbrev pub table_of : File → ℕ → ℕ → L2Table
table_of f got offset = record {
  offset = offset;
  table = λ i. be64 (λ j. if ltb (8 * i + j) got then f.bytes (offset + (8 * i + j)) else 0);
}

-- `qcow_read_l2_table`
pub qcow_read_l2_table : File → Qcow → Bool → ℕ → List L2Table → Option L2Table × List L2Table
unfolding l2_table_search cache_table
qcow_read_l2_table f q malloc offset c =
    let (found, c') = l2_table_search offset c in
    elim found [
      | some t ↦ (some t, c')
      | none ↦ if not malloc then (none, c') else elim (f.read offset (2 ^ q.l2_bits * 8)) [
        | none ↦ (none, c')
        | some got ↦ (some (table_of f got offset), cache_table (table_of f got offset) c')
      ]
    ]

-- `get_l1_index`, `get_l2_index` and `get_cluster_offset`
abbrev pub get_l1_index : Qcow → ℕ → ℕ
get_l1_index q offset = offset / 2 ^ (q.l2_bits + q.cluster_bits)

abbrev pub get_l2_index : Qcow → ℕ → ℕ
get_l2_index q offset = offset / 2 ^ q.cluster_bits % 2 ^ q.l2_bits

abbrev pub get_cluster_offset : Qcow → ℕ → ℕ
get_cluster_offset q offset = offset % 2 ^ q.cluster_bits

-- What an entry of an L2 table says: a cluster of zeros, one at a place of the file, or a compressed
-- one, of which `count` bytes are read at a place (none if the int `coffset` is negative) and the
-- `csize` behind `skip` are decompressed.
pub data Cluster : Type 0 where
  zeros : Cluster
  plain : ℕ → Cluster
  packed : (place : Option ℕ) (count skip csize : ℕ) → Cluster

-- `coffset` is an int.
abbrev pub int_offset : ℕ → Option ℕ
int_offset n = if ltb (n % 2 ^ 32) (2 ^ 31) then some (n % 2 ^ 32) else none

-- The entries of `qcow1_read_cluster`; bit 63 is QCOW1_OFLAG_COMPRESSED.
pub qcow1_entry : Qcow → ℕ → Cluster
qcow1_entry q entry =
    let csize = entry / 2 ^ (63 - q.cluster_bits) % 2 ^ 32 % cluster_size q in
    if test_bit entry 63
    then packed (int_offset (entry % 2 ^ q.cluster_offset_bits)) csize 0 csize
    else (if entry == 0 then zeros else plain entry)

-- The entries of `qcow2_read_cluster`; bit 63 is QCOW2_OFLAG_COPIED and 62 QCOW2_OFLAG_COMPRESSED.
unfoldable pub qcow2_entry : Qcow → ℕ → Cluster
qcow2_entry q entry =
    let coffset = int_offset (entry % 2 ^ q.cluster_offset_bits) in
    let nb_csectors = entry / 2 ^ q.csize_shift % 2 ^ q.csize_bits + 1 in
    let start = clear_bit (clear_bit entry 62) 63 in
    if test_bit entry 62
    then elim coffset [
      | none ↦ packed none 0 0 0
      | some at ↦
          packed (some (at / 512 * 512)) (nb_csectors * 512) (at % 512)
            (nb_csectors * 512 - at % 512)
    ]
    else (if start == 0 then zeros else plain start)

-- How the read of a cluster ends: with -1; with bytes read past the end of `cluster_data`; or with
-- the number of bytes that it answers and the bytes that it has put at `dst`, which are fewer where
-- the file ends.
pub data Answer : Type 0 where
  failed : Answer
  overrun : Answer
  bytes_read : ℕ → List ℕ → Answer

-- `inflate` on a size of the output and a compressed buffer.
abbrev pub Inflate : Type 0
Inflate = ℕ → List ℕ → Option (List ℕ)

unpack : Qcow → Inflate → List ℕ → ℕ → ℕ → Answer
unpack q inflate buffer clust_offset length = elim (inflate (cluster_size q) buffer) [
  | none ↦ failed
  | some out ↦ bytes_read length (take length (drop clust_offset out))
]

-- The part of a read behind the entry. `stale` is what `cluster_data` holds before.
unfoldable pub read_entry : File → Qcow → Inflate → List ℕ → Cluster → ℕ → ℕ → Answer
unfolding unpack
read_entry f q inflate stale zeros clust_offset length = bytes_read length (replicate length 0)
read_entry f q inflate stale (plain start) clust_offset length =
    elim (f.read (start + clust_offset) length) [
      | none ↦ failed
      | some got ↦ bytes_read length (bytes_at f.bytes (start + clust_offset) got)
    ]
read_entry f q inflate stale (packed none count skip csize) clust_offset length = failed
read_entry f q inflate stale (packed (some at) count skip csize) clust_offset length =
    elim (f.read at count) [
      | none ↦ failed
      | some got ↦
          let buffer = bytes_at f.bytes at got ++ drop got stale in
          if ltb (cluster_size q) got
          then overrun
          else unpack q inflate (take csize (drop skip buffer)) clust_offset length
    ]

-- An entry of the L1 table: the offset of an L2 table.
abbrev pub l2t_offset_of : Qcow → ℕ → ℕ
l2t_offset_of q entry = if q.version == 1 then entry else clear_bit entry 63

abbrev pub entry_of : Qcow → ℕ → Cluster
entry_of q entry = if q.version == 1 then qcow1_entry q entry else qcow2_entry q entry

-- The part of a read behind `qcow_read_l2_table`.
unfoldable pub read_table : File → Qcow → Inflate → List ℕ → ℕ → ℕ → Option L2Table → Answer
read_table f q inflate stale offset length none = failed
read_table f q inflate stale offset length (some t) =
    read_entry f q inflate stale (entry_of q (t.table (get_l2_index q offset)))
      (get_cluster_offset q offset) length

-- What `cluster_data` holds behind the read of an entry: that of a compressed cluster goes into it.
abbrev pub data_behind : File → List ℕ → Cluster → List ℕ
data_behind f stale zeros = stale
data_behind f stale (plain start) = stale
data_behind f stale (packed none count skip csize) = stale
data_behind f stale (packed (some at) count skip csize) = elim (f.read at count) [
  | none ↦ stale
  | some got ↦ bytes_at f.bytes at got ++ drop got stale
]

unfoldable pub table_data : File → Qcow → List ℕ → ℕ → Option L2Table → List ℕ
table_data f q stale offset none = stale
table_data f q stale offset (some t) =
    data_behind f stale (entry_of q (t.table (get_l2_index q offset)))

-- `qcow1_read_cluster` for version 1, `qcow2_read_cluster` for any other. The tests
-- `clust_offset >= q->cluster_size` and `l2_idx >= l2t_size` never hold.
pub qcow_read_cluster :
    File → Qcow → Inflate → List ℕ → Bool → ℕ → ℕ → List L2Table → Answer × List ℕ × List L2Table
unfolding qcow_read_l2_table
qcow_read_cluster f q inflate stale malloc offset dst_len c =
    let clust_offset = get_cluster_offset q offset in
    let length = min (cluster_size q - clust_offset) dst_len in
    elim (get_elem? q.l1_table (get_l1_index q offset)) [
      | none ↦ (failed, stale, c)
      | some entry ↦
          if l2t_offset_of q entry == 0
          then (bytes_read length (replicate length 0), stale, c)
          else (let (l2t, c') = qcow_read_l2_table f q malloc (l2t_offset_of q entry) c in
              (read_table f q inflate stale offset length l2t, table_data f q stale offset l2t, c'))
    ]

-- Bytes that have been put, each at its distance from `dst`.
abbrev pub Put : Type 0
Put = List (ℕ × List ℕ)

-- How `qcow_read_sector_single` ends, with what it has put: with -1, with an overrun, out of fuel,
-- or with `dst_len`; then with what `cluster_data` and the cache hold.
pub data Sectors : Type 0 where
  refused : Put → Sectors
  overran : Put → Sectors
  no_fuel : Put → Sectors
  finished : Put → List ℕ → List L2Table → Sectors

-- The loop of `qcow_read_sector_single`. `nr` is a u32, so that the test `nr <= 0` holds for 0 only,
-- and -1 is 2 ^ 32 - 1.
pub read_sectors :
    ℕ
    → File
    → Qcow
    → Inflate
    → List ℕ
    → Bool
    → ℕ
    → ℕ
    → ℕ
    → ℕ
    → List (ℕ × List ℕ)
    → List L2Table
    → Sectors
unfolding qcow_read_cluster
read_sectors zero f q inflate stale malloc dst_len sector at nr_read log c = no_fuel log
read_sectors (suc fuel) f q inflate stale malloc dst_len sector at nr_read log c =
    let offset = sector * 512 % 2 ^ 64 in
    elim (ltb nr_read dst_len) [
      | false ↦ finished log stale c
      | true ↦ elim (leb q.size offset) [
        | true ↦ refused log
        | false ↦
            let (answer, data', c') =
              qcow_read_cluster f q inflate stale malloc offset (dst_len - nr_read) c in
            elim answer [
              | overrun ↦ overran log
              | failed ↦
                  read_sectors fuel f q inflate data' malloc dst_len (sector + (2 ^ 32 - 1) / 512)
                    (at + (2 ^ 32 - 1)) ((nr_read + (2 ^ 32 - 1)) % 2 ^ 32) log c'
              | bytes_read nr got ↦ elim (nr == 0) [
                | true ↦ refused log
                | false ↦
                    read_sectors fuel f q inflate data' malloc dst_len (sector + nr / 512) (at + nr)
                      ((nr_read + nr) % 2 ^ 32) (log ++ ((at, got) ∷ [])) c'
              ]
            ]
      ]
    ]

-- `qcow_read_sector_single`
pub qcow_read_sector_single :
    ℕ → File → Qcow → Inflate → List ℕ → Bool → ℕ → ℕ → List L2Table → Sectors
unfolding read_sectors
qcow_read_sector_single fuel f q inflate stale malloc sector dst_len c =
    read_sectors fuel f q inflate stale malloc dst_len sector 0 0 [] c

-- Why a read stops early: with -1, outside an array, or out of fuel.
pub data Stop : Type 0 where
  minus_one outside out_of_fuel : Stop

-- How `qcow_read_sector` ends: early, or with the total; and what the buffers have got up to then.
pub data Total : Type 0 where
  stopped : Stop → List Put → Total
  total : ℕ → List Put → Total

abbrev pub and_more : ℕ → Put → Total → Total
and_more nr log (stopped why logs) = stopped why (log ∷ logs)
and_more nr log (total n logs) = total (nr + n) (log ∷ logs)

-- `qcow_read_sector` of buffers of some lengths, each below 2 ^ 32.
pub qcow_read_sector : ℕ → File → Qcow → Inflate → List ℕ → Bool → ℕ → List ℕ → List L2Table → Total
unfolding qcow_read_sector_single
qcow_read_sector fuel f q inflate stale malloc sector [] c = total 0 []
qcow_read_sector fuel f q inflate stale malloc sector (len ∷ lens) c =
    elim (qcow_read_sector_single fuel f q inflate stale malloc sector len c) [
      | finished log data' c' ↦
          and_more len log
            (qcow_read_sector fuel f q inflate data' malloc (sector + len / 512) lens c')
      | refused log ↦ stopped minus_one (log ∷ [])
      | overran log ↦ stopped outside (log ∷ [])
      | no_fuel log ↦ stopped out_of_fuel (log ∷ [])
    ]
