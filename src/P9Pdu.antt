-- ===== src/P9Pdu.antt =====
-- hw/virtio/9p-pdu.c: the encoding of 9p messages into the guest's buffers, and the decoding out of
-- them. The buffers of `in_iov` and `out_iov` are their bytes; no two overlap. The host is
-- little-endian. A composite format ('Q', 'S', 'I', 'A') is the list of the basic formats that the
-- code passes to the nested call, with a nested 'Q' written out.
pub mod Buffers
pub mod Codec
mod Tests
use kvmc.Prelude.{
  ℕ, zero, suc, ◌+◌, ◌-◌, ◌*◌, ◌/◌, ◌%◌, ◌^◌, List, [], ◌∷◌, ◌++◌, Bool, true, false, Option, none,
  some, ltb, leb, ◌==◌, if◌then◌else◌, length, take, drop, min,
}

-- `struct p9_pdu` without `queue_head`; the counts are the lengths.
pub record Pdu : Type 0 where
  pub read_offset : ℕ
  pub write_offset : ℕ
  pub out_iov : List (List ℕ)
  pub in_iov : List (List ℕ)

-- The loop of `virtio_p9_pdu_read`: the bytes copied.
pub gather : List (List ℕ) → ℕ → ℕ → List ℕ
gather [] offset size = []
gather (v ∷ vs) offset size =
    let len = min (length v - offset) size in
    let skip = gather vs (offset - length v) size in
    let rest = take len (drop offset v) ++ gather vs 0 (size - len) in
    if size == 0 then [] else if leb (length v) offset then skip else rest

-- `virtio_p9_pdu_read`
pub pdu_read : ℕ → Pdu → List ℕ × Pdu
pdu_read size p =
    let copied = gather p.out_iov p.read_offset size in
    (copied, record p { read_offset = p.read_offset + length copied })

-- `memcpy(base + offset, data, ...)`: bytes over those from an offset on, as far as both go.
abbrev pub splice : ℕ → List ℕ → List ℕ → List ℕ
splice zero [] c = c
splice zero (x ∷ d) [] = []
splice zero (x ∷ d) (y ∷ c) = x ∷ splice zero d c
splice (suc n) d [] = []
splice (suc n) d (y ∷ c) = y ∷ splice n d c

-- The loop of `virtio_p9_pdu_write`: the buffers afterwards, and the number of bytes copied.
pub scatter : List (List ℕ) → ℕ → List ℕ → List (List ℕ) × ℕ
scatter [] offset d = ([], 0)
scatter (v ∷ vs) offset d =
    let len = min (length v - offset) (length d) in
    let skip : List (List ℕ) × ℕ =
      (let (vs', copied) = scatter vs (offset - length v) d in (v ∷ vs', copied)) in
    let rest : List (List ℕ) × ℕ =
      (let (vs', copied) = scatter vs 0 (drop len d) in
        (splice offset (take len d) v ∷ vs', len + copied)) in
    if length d == 0 then (v ∷ vs, 0) else if leb (length v) offset then skip else rest

-- `virtio_p9_pdu_write`
pub pdu_write : List ℕ → Pdu → Pdu
pdu_write d p =
    let (iov, copied) = scatter p.in_iov p.write_offset d in
    record p { in_iov = iov; write_offset = p.write_offset + copied }

-- The basic formats 'b', 'w', 'd', 'q' and 's'. A string is its bytes, or NULL.
pub data Arg : Type 0 where
  byte word dword qword : ℕ → Arg
  string : Option (List ℕ) → Arg

-- `htole16` and its like: the low bytes of a value, the lowest first.
abbrev pub le_bytes : ℕ → ℕ → List ℕ
le_bytes zero n = []
le_bytes (suc k) n = n % 256 ∷ le_bytes k (n / 256)

abbrev pub from_le : List ℕ → ℕ
from_le [] = 0
from_le (x ∷ xs) = x + 256 * from_le xs

-- `MIN(strlen(s), USHRT_MAX)` bytes of a string.
abbrev pub sent : Option (List ℕ) → List ℕ
sent none = []
sent (some t) = take 65535 t

-- One basic format of `virtio_p9_pdu_encode`.
pub put_arg : Arg → Pdu → Pdu
put_arg (byte n) p = pdu_write (le_bytes 1 n) p
put_arg (word n) p = pdu_write (le_bytes 2 n) p
put_arg (dword n) p = pdu_write (le_bytes 4 n) p
put_arg (qword n) p = pdu_write (le_bytes 8 n) p
put_arg (string t) p = pdu_write (sent t) (pdu_write (le_bytes 2 (length (sent t))) p)

-- `virtio_p9_pdu_encode` on basic formats, which leaves `retval` at 0.
pub encode : List Arg → Pdu → Pdu
encode [] p = p
encode (a ∷ args) p = encode args (put_arg a p)

-- `struct p9_qid`, `struct p9_wstat` and `struct p9_stat_dotl`.
pub record Qid : Type 0 where
  pub type : ℕ
  pub version : ℕ
  pub path : ℕ

pub record Wstat : Type 0 where
  pub size : ℕ
  pub type : ℕ
  pub dev : ℕ
  pub qid : Qid
  pub mode : ℕ
  pub atime : ℕ
  pub mtime : ℕ
  pub length : ℕ
  pub name : Option (List ℕ)
  pub uid : Option (List ℕ)
  pub gid : Option (List ℕ)
  pub muid : Option (List ℕ)

pub record StatDotl : Type 0 where
  pub st_result_mask : ℕ
  pub qid : Qid
  pub st_mode : ℕ
  pub st_uid : ℕ
  pub st_gid : ℕ
  -- `st_nlink`, `st_rdev`, `st_size`, `st_blksize`, `st_blocks`
  pub st_sizes : ℕ × ℕ × ℕ × ℕ × ℕ
  -- Seconds and nanoseconds of `st_atime`, `st_mtime`, `st_ctime` and `st_btime`.
  pub st_atime : ℕ × ℕ
  pub st_mtime : ℕ × ℕ
  pub st_ctime : ℕ × ℕ
  pub st_btime : ℕ × ℕ
  pub st_gen : ℕ
  pub st_data_version : ℕ

-- 'Q': "bdq"
abbrev pub qid_args : Qid → List Arg
qid_args x = byte x.type ∷ dword x.version ∷ qword x.path ∷ []

-- 'S': "wwdQdddqssss"
abbrev pub wstat_args : Wstat → List Arg
wstat_args x =
    (word x.size ∷ word x.type ∷ dword x.dev ∷ [])
    ++ (qid_args x.qid
        ++ (dword x.mode
            ∷ dword x.atime
            ∷ dword x.mtime
            ∷ qword x.length
            ∷ string x.name
            ∷ string x.uid
            ∷ string x.gid
            ∷ string x.muid
            ∷ []))

abbrev times : ℕ × ℕ → List Arg
times (sec, nsec) = qword sec ∷ qword nsec ∷ []

-- 'A': "qQdddqqqqqqqqqqqqqqq"
pub stat_args : StatDotl → List Arg
stat_args x =
    let (nlink, rdev, size, blksize, blocks) = x.st_sizes in
    (qword x.st_result_mask ∷ [])
    ++ (qid_args x.qid
        ++ ((dword x.st_mode ∷ dword x.st_uid ∷ dword x.st_gid ∷ [])
            ++ ((qword nlink ∷ qword rdev ∷ qword size ∷ qword blksize ∷ qword blocks ∷ [])
                ++ (times x.st_atime
                    ++ (times x.st_mtime
                        ++ (times x.st_ctime
                            ++ (times x.st_btime
                                ++ (qword x.st_gen ∷ qword x.st_data_version ∷ []))))))))

-- The formats that a decoder asks for.
pub data Format : Type 0 where
  is_byte is_word is_dword is_qword is_string : Format

-- 'S' and 'I' of a decoder: "wwdQdddqssss" and "ddddqqqqq".
abbrev pub wstat_formats : List Format
wstat_formats =
    is_word ∷ is_word ∷ is_dword ∷ is_byte ∷ is_dword ∷ is_qword ∷ is_dword ∷ is_dword ∷ is_dword
    ∷ is_qword ∷ is_string ∷ is_string ∷ is_string ∷ is_string ∷ []

abbrev pub iattr_formats : List Format
iattr_formats =
    is_dword ∷ is_dword ∷ is_dword ∷ is_dword ∷ is_qword ∷ is_qword ∷ is_qword ∷ is_qword ∷ is_qword
    ∷ []

pub data Value : Type 0 where
  num : ℕ → Value
  -- `none` is the NULL of a failed allocation.
  str : Option (List ℕ) → Value

-- The variable that is read into holds `junk` before; what the guest did not send keeps it.
abbrev pub overlay : List ℕ → List ℕ → List ℕ
overlay copied junk = copied ++ drop (length copied) junk

-- 'b', 'w', 'd' and 'q', of `k` bytes.
pub get_int : List ℕ → ℕ → Pdu → ℕ × Pdu
get_int junk k p = let (copied, p') = pdu_read k p in (from_le (take k (overlay copied junk)), p')

-- How a basic format of `virtio_p9_decode` ends: with a value, with ENOMEM, or with a write outside
-- the string that was allocated.
pub data Decoded : Type 0 where
  got : Value → Pdu → Decoded
  no_memory : Pdu → Decoded
  fault : Decoded

abbrev int_of : ℕ × Pdu → Decoded
int_of (n, p) = got (num n) p

-- 's': the length is an int16_t, so that one of 32768 or more is negative; it is the argument of
-- `malloc` plus one, as a size_t. `malloc` says for which sizes memory is given.
get_str : (ℕ → Bool) → List ℕ → ℕ × Pdu → Decoded
get_str malloc junk (len, p) =
    if ltb len 32768
    then (if malloc (len + 1)
        then (let (copied, p') = pdu_read len p in
            got (str (some (take len (overlay copied junk)))) p')
        else no_memory p)
    else (if malloc ((len + 2 ^ 64 - 65535) % 2 ^ 64) then fault else no_memory p)

pub get : (ℕ → Bool) → List ℕ → Format → Pdu → Decoded
unfolding get_str
get malloc junk is_byte p = int_of (get_int junk 1 p)
get malloc junk is_word p = int_of (get_int junk 2 p)
get malloc junk is_dword p = int_of (get_int junk 4 p)
get malloc junk is_qword p = int_of (get_int junk 8 p)
get malloc junk is_string p = get_str malloc junk (get_int junk 2 p)

-- `virtio_p9_decode` on basic formats: the values, `retval` (ENOMEM is 12) and the pdu; `none` after
-- a fault. A failed allocation does not end the loop.
pub decode : (ℕ → Bool) → List ℕ → List Format → ℕ → Pdu → Option (List Value × ℕ × Pdu)
unfolding get
decode malloc junk [] retval p = some ([], retval, p)
decode malloc junk (f ∷ formats) retval p = elim (get malloc junk f p) [
  | got v p' ↦ elim (decode malloc junk formats retval p') [
    | none ↦ none
    | some (vs, r, p'') ↦ some (v ∷ vs, r, p'')
  ]
  | no_memory p' ↦ elim (decode malloc junk formats 12 p') [
    | none ↦ none
    | some (vs, r, p'') ↦ some (str none ∷ vs, r, p'')
  ]
  | fault ↦ none
]
