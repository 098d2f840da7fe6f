-- ===== src/P9/Transfer.antt =====
-- hw/virtio/9p.c: reading and writing files, and reading directories. The loop over a directory runs
-- on fuel.
pub mod Bytes
use kvmc.Prelude.{
  ℕ, zero, suc, ◌+◌, ◌-◌, ◌*◌, ◌%◌, ◌^◌, List, [], ◌∷◌, ◌++◌, Bool, true, false, Option, none, some,
  ltb, leb, ◌==◌, not, ◌&&◌, ◌||◌, if◌then◌else◌, length, take, drop,
}
use kvmc.P9Pdu.{
  Pdu, Arg, scatter, splice, byte, word, dword, qword, string, is_dword, is_qword, qid_args,
}
use kvmc.P9.{
  Text, Stat, Dirent, SysAnswer, done, failed, Host, P9, Ending, Exec, ok, out_of_fuel, pure,
  raise_errno, crash, get_state, ask, call, run_host, modify, after_call, ◌>>=◌, ◌>>◌,
}
use kvmc.P9.Paths.{FullPath, full, refused, get_full_path_helper}
use kvmc.P9.Fids.{FidBalance, get_fid, load_fid}
use kvmc.P9.Replies.{
  hdr_len, read_num, writef, seek_write, current_offset, send_reply, or_error, is_dir, stat2qid,
  virtio_p9_set_reply_header,
}

-- `virtio_p9_update_iov_cnt` from a total on: the buffers that are left, the last one shortened.
unfoldable pub update_iov_cnt : ℕ → ℕ → List (List ℕ) → List (List ℕ)
update_iov_cnt iov_total count [] = []
update_iov_cnt iov_total count (v ∷ iov) =
    let rest = update_iov_cnt (iov_total + length v) count iov in
    if ltb iov_total count
    then (if ltb count (iov_total + length v) then take (count - iov_total) v ∷ [] else v ∷ rest)
    else []

-- The buffers behind the first `n` bytes of the first one, limited to `count` bytes. A first buffer
-- of fewer bytes gets a length that wraps, so that `count` bytes after its end are in the request.
abbrev pub iov_behind : ℕ → ℕ → List (List ℕ) → Option (List (List ℕ))
iov_behind n count [] = some []
iov_behind n count (v ∷ iov) =
    if ltb (length v) n
    then (if count == 0 then some [] else none)
    else some (update_iov_cnt 0 count (drop n v ∷ iov))

abbrev pub iov_total : List (List ℕ) → ℕ
iov_total [] = 0
iov_total (v ∷ iov) = length v + iov_total iov

abbrev pub joined : List (List ℕ) → List ℕ
joined [] = []
joined (v ∷ iov) = v ++ joined iov

-- The buffers of a request after `preadv` has filled the part `used` of them with `bytes`; the first
-- has its header back, the last that was used stays short.
abbrev pub refilled : ℕ → List (List ℕ) → List (List ℕ) → List (List ℕ)
refilled n iov [] = iov
refilled n [] (w ∷ used) = []
refilled n (v ∷ iov) (w ∷ used) = splice n w v ∷ (used ++ drop (length used) iov)

-- `rcount` after `preadv`: -1 is a large u32, which is cut down like every other large count.
unfoldable pub read_count : ℕ → SysAnswer (List ℕ) → ℕ
read_count count (done bytes) = if ltb count (length bytes) then count else length bytes
read_count count (failed e) = if ltb count (2 ^ 32 - 1) then count else 2 ^ 32 - 1

abbrev pub bytes_of : SysAnswer (List ℕ) → List ℕ
bytes_of (done bytes) = bytes
bytes_of (failed e) = []

-- The qid of an entry; after `memset(&st, -1, ...)` S_ISDIR is not true.
unfoldable pub qid_of : SysAnswer Stat → List Arg
qid_of (done st) = qid_args (stat2qid st)
qid_of (failed e) = byte 0 ∷ dword (2 ^ 32 - 1) ∷ qword (2 ^ 64 - 1) ∷ []

unfoldable pub dentry_size : Dirent → ℕ
dentry_size dent = 24 + length dent.d_name

module _ {H : Type 0} (os : Host H) where
  unfoldable pub filling : ℕ → ℕ → ℕ → Option (List (List ℕ)) → Exec H ℕ
  filling fd offset count none = crash
  filling fd offset count (some used) = do
    answer ← ask (os.preadv fd (iov_total used) offset)
    modify (λ s. record s {
      pdu = record s.pdu {
        in_iov = refilled (hdr_len + 4) s.pdu.in_iov (scatter used 0 (bytes_of answer)).0;
      };
    })
    pure (read_count count answer)

  -- The part of `virtio_p9_read` between the two uses of the pdu's buffers.
  unfoldable pub read_file : ℕ → ℕ → ℕ → Exec H ℕ
  read_file fd offset count = do
    used ← get_state (λ s. iov_behind (hdr_len + 4) count s.pdu.in_iov)
    filling fd offset count used

  -- How a reply ends whose body is in its place already: the count, and the length of both.
  unfoldable pub reply_count : ℕ → Exec H ℕ
  reply_count rcount = do
    seek_write hdr_len
    writef (dword rcount ∷ [])
    outlen ← get_state (λ s. (s.pdu.write_offset + rcount) % 2 ^ 32)
    virtio_p9_set_reply_header os outlen
    pure outlen

  -- 7 + 16 bytes of header and fields are before the bytes to write; the last buffer in use stays
  -- short.
  unfoldable pub writing : ℕ → ℕ → Option (List (List ℕ)) → Exec H ℕ
  writing fd offset none = crash
  writing fd offset (some used) = do
    modify (λ s. record s { pdu = record s.pdu { out_iov = refilled 23 s.pdu.out_iov used } })
    call (os.pwritev fd (joined used) offset)

  -- One call of `stat_rel` in `virtio_p9_readdir`.
  unfoldable pub stat_full : FullPath → H → SysAnswer Stat × H
  stat_full (full path) h = os.lstat path h
  stat_full (refused e) h = (failed e, h)

  -- One entry; the result is the number of bytes that were written.
  unfoldable pub put_dirent : Dirent → Exec H ℕ
  put_dirent dent = do
    root ← get_state (λ s. s.root_dir)
    st ← ask (stat_full (get_full_path_helper root dent.d_name))
    read ← get_state (λ s. s.pdu.write_offset)
    writef (qid_of st ++ (qword dent.d_off ∷ byte dent.d_type ∷ string (some dent.d_name) ∷ []))
    get_state (λ s. s.pdu.write_offset - read)

  -- The loop of `virtio_p9_readdir`: `rcount` at its end.
  unfoldable pub put_dirents : ℕ → ℕ → ℕ → ℕ → ℕ → Option Dirent → Exec H ℕ
  put_dirents fuel dir count old_offset rcount none = pure rcount
  put_dirents zero dir count old_offset rcount (some dent) = λ s. (out_of_fuel, s)
  put_dirents (suc fuel) dir count old_offset rcount (some dent) =
      if ltb count ((rcount + dentry_size dent) % 2 ^ 32)
      then (run_host (os.seekdir dir old_offset) >> pure rcount)
      else do
        written ← put_dirent dent
        next ← ask (os.readdir dir)
        put_dirents fuel dir count dent.d_off ((rcount + written) % 2 ^ 32) next

  -- The stream of a fid that is not open is NULL.
  unfoldable pub list_dir : ℕ → ℕ → ℕ → ℕ → Exec H ℕ
  list_dir fuel dir offset count = if dir == 0 then crash else do
    run_host (os.seekdir dir offset)
    dent ← ask (os.readdir dir)
    modify (λ s. record s { pdu = record s.pdu { write_offset = s.pdu.write_offset + 4 } })
    rcount ← put_dirents fuel dir count offset 0 dent
    reply_count rcount

module _ {H : Type 0} (os : Host H) (tree : FidBalance) where
  unfoldable pub virtio_p9_read : Exec H ℕ
  virtio_p9_read = do
    fid_val ← read_num os is_dword
    offset ← read_num os is_qword
    count ← read_num os is_dword
    fid ← get_fid os tree fid_val
    c ← load_fid fid
    rcount ← read_file os c.fd offset count
    reply_count os rcount

  unfoldable pub virtio_p9_write : Exec H ℕ
  virtio_p9_write = do
    fid_val ← read_num os is_dword
    offset ← read_num os is_qword
    count ← read_num os is_dword
    fid ← get_fid os tree fid_val
    c ← load_fid fid
    used ← get_state (λ s. iov_behind 23 count s.pdu.out_iov)
    or_error os do res ← writing os c.fd offset used; writef (dword res ∷ []); send_reply os

  unfoldable pub virtio_p9_readdir : ℕ → Exec H ℕ
  virtio_p9_readdir fuel = do
    fid_val ← read_num os is_dword
    offset ← read_num os is_qword
    count ← read_num os is_dword
    fid ← get_fid os tree fid_val
    or_error os do
      dir ← is_dir os fid
      if dir then pure tt else raise_errno 22
      c ← load_fid fid
      list_dir os fuel c.dir offset count
