-- ===== src/P9/Files.antt =====
-- hw/virtio/9p.c: the handlers for the session, for open files and for attributes.
use kvmc.Prelude.{
  ℕ, ◌+◌, ◌-◌, ◌*◌, ◌%◌, ◌^◌, [], ◌∷◌, ◌++◌, Bool, true, false, some, leb, ◌==◌, not, ◌||◌,
  if◌then◌else◌, length, test_bit, set_bit,
}
use kvmc.P9Pdu.{
  byte, word, dword, qword, string, is_byte, is_word, is_dword, is_qword, qid_args, stat_args,
}
use kvmc.P9.{
  Text, Time, utime_now, utime_omit, at_time, SysAnswer, done, failed, Change, chmod, utimensat,
  lchown, truncate, Host, Exec, pure, raise_errno, crash, get_state, ask, call, deref, ◌>>=◌, ◌>>◌,
}
use kvmc.P9.Paths.{path_max, equal}
use kvmc.P9.Fids.{FidBalance, get_fid, load_fid, update_fid, abs_path, close_fid, join_path}
use kvmc.P9.Replies.{
  hdr_len, read_num, read_str, read_name, writef, send_reply, or_error, get_full_path, is_dir,
  stat2qid, virtio_p9_openflags, virtio_p9_fill_stat, virtio_p9_set_reply_header,
  virtio_p9_error_reply,
}

-- "9P2000.L" and "unknown"
abbrev pub version_dotl : Text
version_dotl = 57 ∷ 80 ∷ 50 ∷ 48 ∷ 48 ∷ 48 ∷ 46 ∷ 76 ∷ []

abbrev pub unknown : Text
unknown = 117 ∷ 110 ∷ 107 ∷ 110 ∷ 111 ∷ 119 ∷ 110 ∷ []

-- An fd that `open` has left at -1.
abbrev pub minus_one : ℕ
minus_one = 4294967295

-- One element of `times`: ATTR_xTIME and ATTR_xTIME_SET say whether it is changed, and to what.
abbrev pub time_of : Bool → Bool → ℕ → ℕ → Time
time_of changed given sec nsec =
    if changed then (if given then at_time sec nsec else utime_now) else utime_omit

-- `struct p9_iattr_dotl`, with seconds and nanoseconds of a time.
pub record Iattr : Type 0 where
  pub valid : ℕ
  pub mode : ℕ
  pub uid : ℕ
  pub gid : ℕ
  pub size : ℕ
  pub atime : ℕ × ℕ
  pub mtime : ℕ × ℕ

-- The path that is left where it is copied onto itself.
abbrev pub own : Bool → Text → Text
own true path = path
own false path = []

module _ {H : Type 0} where
  -- `new_fid->dir = opendir(...)`, and the same for `fd`: what is stored after a failure is NULL or -1.
  abbrev pub opened_dir : ℕ → SysAnswer ℕ → Exec H (Unit {0})
  opened_dir p (done d) = update_fid p (λ c. record c { dir = d })
  opened_dir p (failed e) = update_fid p (λ c. record c { dir = 0 }) >> raise_errno e

  abbrev pub opened_file : ℕ → SysAnswer ℕ → Exec H (Unit {0})
  opened_file p (done fd) = update_fid p (λ c. record c { fd = fd })
  opened_file p (failed e) = update_fid p (λ c. record c { fd = minus_one }) >> raise_errno e

  -- `snprintf(dfid->path, size, "%s/%s", dfid->path, name)`, which copies the path onto itself; the
  -- byte that is written where it does not fit, `path[size]`, lies after the array.
  unfoldable pub extend_path : Bool → ℕ → Text → Exec H (Unit {0})
  extend_path keeps p name = do
    c ← load_fid p
    size ← get_state (λ s. path_max - length s.root_dir)
    if leb size (length (own keeps c.path ++ (47 ∷ name)))
        then crash
        else update_fid p (λ c. record c { path = own keeps c.path ++ (47 ∷ name) })

  -- The two steps of `virtio_p9_create` that put the name behind the path of the directory.
  unfoldable pub name_in : Bool → ℕ → Text → Exec H Text
  name_in keeps dfid name = do
    full_path ← get_full_path dfid name
    extend_path keeps dfid name
    pure full_path

module _ {H : Type 0} (os : Host H) where
  unfoldable pub open_as : ℕ → Text → ℕ → Bool → Exec H (Unit {0})
  open_as p path flags true = ask (os.opendir path) >>= opened_dir p
  open_as p path flags false =
      ask (os.open_file path (virtio_p9_openflags flags) 0) >>= opened_file p

  -- A change that the test asks for.
  unfoldable pub when : Bool → Change → Exec H (Unit {0})
  when asked c = if asked then call (os.change c) else pure tt

  -- 'I'
  unfoldable pub read_iattr : Exec H Iattr
  read_iattr = do
    valid ← read_num os is_dword
    mode ← read_num os is_dword
    uid ← read_num os is_dword
    gid ← read_num os is_dword
    size ← read_num os is_qword
    atime_sec ← read_num os is_qword
    atime_nsec ← read_num os is_qword
    mtime_sec ← read_num os is_qword
    mtime_nsec ← read_num os is_qword
    pure (record {
      valid = valid;
      mode = mode;
      uid = uid;
      gid = gid;
      size = size;
      atime = (atime_sec, atime_nsec);
      mtime = (mtime_sec, mtime_nsec);
    })

  -- The bits of `valid` are ATTR_MODE 0, UID 1, GID 2, SIZE 3, ATIME 4, MTIME 5, CTIME 6, ATIME_SET 7
  -- and MTIME_SET 8; ATTR_MASK is the bits 0 to 6. The owner is set without a change where ctime
  -- alone is to change.
  unfoldable pub set_attributes : Text → Iattr → Exec H (Unit {0})
  set_attributes path a = do
    when (test_bit a.valid 0) (chmod path a.mode)
    when (test_bit a.valid 4 || test_bit a.valid 5) (
        utimensat path (time_of (test_bit a.valid 4) (test_bit a.valid 7) a.atime.0 a.atime.1)
          (time_of (test_bit a.valid 5) (test_bit a.valid 8) a.mtime.0 a.mtime.1))
    when (test_bit a.valid 1 || test_bit a.valid 2 || (a.valid % 128 == 64)) (
        lchown path (if test_bit a.valid 1 then a.uid else minus_one)
          (if test_bit a.valid 2 then a.gid else minus_one))
    when (test_bit a.valid 3) (truncate path a.size)

module _ {H : Type 0} (os : Host H) (tree : FidBalance) where
  unfoldable pub virtio_p9_version : Exec H ℕ
  virtio_p9_version = do
    msize ← read_num os is_dword
    version ← read_name os
    writef
        (dword msize ∷ string (some (if equal version version_dotl then version else unknown)) ∷ [])
    send_reply os

  unfoldable pub virtio_p9_clunk : Exec H ℕ
  virtio_p9_clunk = do fid ← read_num os is_dword; close_fid os tree fid; send_reply os

  unfoldable pub virtio_p9_open : Exec H ℕ
  virtio_p9_open = do
    fid ← read_num os is_dword
    flags ← read_num os is_dword
    new_fid ← get_fid os tree fid
    or_error os do
      path ← abs_path new_fid
      st ← call (os.lstat path)
      dir ← is_dir os new_fid
      open_as os new_fid path flags dir
      -- FIXME!! need ot send proper iounit
      writef (qid_args (stat2qid st) ++ (dword 0 ∷ []))
      send_reply os

  unfoldable pub virtio_p9_create : Exec H ℕ
  virtio_p9_create = do
    dfid_val ← read_num os is_dword
    named ← read_str os
    flags ← read_num os is_dword
    mode ← read_num os is_dword
    gid ← read_num os is_dword
    dfid ← get_fid os tree dfid_val
    name ← deref named
    or_error os do
      full_path ← name_in os.keeps_overlap dfid name
      fd ← call (os.open_file full_path (set_bit (virtio_p9_openflags flags) 6) mode)
      update_fid dfid (λ c. record c { fd = fd })
      st ← call (os.lstat full_path)
      call (os.change (chmod full_path (mode % 512)))
      writef (qid_args (stat2qid st) ++ (dword 0 ∷ []))
      send_reply os

  unfoldable pub virtio_p9_attach : Exec H ℕ
  virtio_p9_attach = do
    fid_val ← read_num os is_dword
    afid ← read_num os is_dword
    uname ← read_str os
    aname ← read_str os
    uid ← read_num os is_dword
    or_error os do
      root ← get_state (λ s. s.root_dir)
      st ← call (os.lstat root)
      fid ← get_fid os tree fid_val
      update_fid fid (λ c. record c { uid = uid })
      joined ← join_path fid (47 ∷ [])
      if joined then pure tt else raise_errno 36
      writef (qid_args (stat2qid st))
      send_reply os

  unfoldable pub virtio_p9_getattr : Exec H ℕ
  virtio_p9_getattr = do
    fid_val ← read_num os is_dword
    request_mask ← read_num os is_qword
    fid ← get_fid os tree fid_val
    or_error os do
      path ← abs_path fid
      st ← call (os.lstat path)
      writef (stat_args (virtio_p9_fill_stat st))
      send_reply os

  unfoldable pub virtio_p9_setattr : Exec H ℕ
  virtio_p9_setattr = do
    fid_val ← read_num os is_dword
    p9attr ← read_iattr os
    fid ← get_fid os tree fid_val
    or_error os do
      path ← abs_path fid
      set_attributes os path p9attr
      virtio_p9_set_reply_header os hdr_len
      pure hdr_len

  unfoldable pub virtio_p9_statfs : Exec H ℕ
  virtio_p9_statfs = do
    fid_val ← read_num os is_dword
    fid ← get_fid os tree fid_val
    or_error os do
      path ← abs_path fid
      b ← call (os.statfs path)
      writef (
          dword b.f_type
          ∷ dword b.f_bsize
          ∷ qword b.f_blocks
          ∷ qword b.f_bfree
          ∷ qword b.f_bavail
          ∷ qword b.f_files
          ∷ qword b.f_ffree
          ∷ qword (b.f_fsid.0 % 2 ^ 32 + b.f_fsid.1 * 2 ^ 32 % 2 ^ 64)
          ∷ dword b.f_namelen
          ∷ [])
      send_reply os

  unfoldable pub virtio_p9_fsync : Exec H ℕ
  virtio_p9_fsync = do
    fid_val ← read_num os is_dword
    datasync ← read_num os is_dword
    fid ← get_fid os tree fid_val
    or_error os do
      c ← load_fid fid
      fd ← get_state (λ s. if c.dir == 0 then c.fd else os.dirfd c.dir s.host)
      call (os.sync (not (datasync == 0)) fd)
      send_reply os

  -- P9_LOCK_SUCCESS is 0.
  unfoldable pub virtio_p9_lock : Exec H ℕ
  virtio_p9_lock = do
    fid_val ← read_num os is_dword
    type ← read_num os is_byte
    flags ← read_num os is_dword
    start ← read_num os is_qword
    len ← read_num os is_qword
    proc_id ← read_num os is_dword
    client_id ← read_str os
    writef (dword 0 ∷ [])
    send_reply os

  -- F_UNLCK is 2.
  unfoldable pub virtio_p9_getlock : Exec H ℕ
  virtio_p9_getlock = do
    fid_val ← read_num os is_dword
    type ← read_num os is_byte
    start ← read_num os is_qword
    len ← read_num os is_qword
    proc_id ← read_num os is_dword
    client_id ← read_str os
    writef (byte 2 ∷ qword start ∷ qword len ∷ dword proc_id ∷ string client_id ∷ [])
    send_reply os

  unfoldable pub virtio_p9_flush : Exec H ℕ
  virtio_p9_flush = do
    tag ← read_num os is_word
    oldtag ← read_num os is_word
    writef (word tag ∷ [])
    send_reply os

  -- EOPNOTSUPP is 95.
  unfoldable pub virtio_p9_eopnotsupp : Exec H ℕ
  virtio_p9_eopnotsupp = virtio_p9_error_reply os 95
