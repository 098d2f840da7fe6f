-- ===== src/P9/Replies.antt =====
-- hw/virtio/9p.c: reading a request, writing a reply and its header, errors, and file attributes.
pub mod Header
use kvmc.Prelude.{
  ℕ, zero, suc, ◌+◌, ◌*◌, ◌/◌, ◌%◌, ◌^◌, List, [], ◌∷◌, ◌++◌, Bool, Option, none, some, ltb, ◌==◌,
  if◌then◌else◌, clear_bit, set_bit,
}
use kvmc.P9Pdu
use kvmc.P9Pdu.{
  Pdu, Arg, byte, word, dword, encode, Format, is_byte, is_word, is_dword, is_qword, is_string,
  Value, num, str, Decoded, Qid, StatDotl,
}
use kvmc.P9.{
  Text, Stat, SysAnswer, done, failed, Host, P9, Ending, Exec, ok, err, fault, out_of_fuel, pure,
  raise_errno, crash, get_state, ask, call, deref, modify, ◌>>=◌, ◌>>◌,
}
use kvmc.P9.Paths.{c_string, FullPath, full, refused, get_full_path_helper}
use kvmc.P9.Fids.{abs_path, load_fid}

-- sizeof(u32) + sizeof(u8) + sizeof(u16)
abbrev pub hdr_len : ℕ
hdr_len = 7

-- EMFILE, 24, is ENFILE, 23, for the guest.
abbrev pub reported : ℕ → ℕ
reported error = if error == 24 then 23 else error

module _ {H : Type 0} (os : Host H) where
  abbrev pub decoded : Decoded → P9 H → Ending Value × P9 H
  decoded (Decoded.got v p) s = (ok v, record s { pdu = p })
  decoded (Decoded.no_memory p) s = (ok (str none), record s { pdu = p })
  decoded Decoded.fault s = (fault, s)

  -- One format of `virtio_p9_pdu_readf`.
  unfoldable pub readf : Format → Exec H Value
  readf f s = decoded (P9Pdu.get (os.malloc s.host) os.junk f s.pdu) s

  abbrev pub number_of : Value → ℕ
  number_of (num n) = n
  number_of (str t) = 0

  abbrev pub text : Value → Option Text
  text (num n) = none
  text (str none) = none
  text (str (some bytes)) = some (c_string bytes)

  -- 'b', 'w', 'd' and 'q'
  unfoldable pub read_num : Format → Exec H ℕ
  read_num f = do v ← readf f; pure (number_of v)

  -- 's': a C string, or NULL.
  unfoldable pub read_str : Exec H (Option Text)
  read_str = do v ← readf is_string; pure (text v)

  -- 's', of which the code uses the text.
  unfoldable pub read_name : Exec H Text
  read_name = read_str >>= deref

module _ {H : Type 0} where
  -- `virtio_p9_pdu_writef`
  unfoldable pub writef : List Arg → Exec H (Unit {0})
  writef args = modify (λ s. record s { pdu = encode args s.pdu })

  unfoldable pub seek_read : ℕ → Exec H (Unit {0})
  seek_read offset = modify (λ s. record s { pdu = record s.pdu { read_offset = offset } })

  unfoldable pub seek_write : ℕ → Exec H (Unit {0})
  seek_write offset = modify (λ s. record s { pdu = record s.pdu { write_offset = offset } })

  -- `pdu->write_offset`, as the u32 that `*outlen` is.
  unfoldable pub current_offset : Exec H ℕ
  current_offset = get_state (λ s. s.pdu.write_offset % 2 ^ 32)

-- `S_ISDIR(st.st_mode)`
abbrev pub s_isdir : Stat → Bool
s_isdir st = st.st_mode / 4096 % 16 == 4

-- P9_QTDIR is 0x80.
unfoldable pub stat2qid : Stat → Qid
stat2qid st = record {
  type = if s_isdir st then 128 else 0;
  version = st.st_mtime.0 % 2 ^ 32;
  path = st.st_ino;
}

-- O_CREAT, O_NOCTTY, O_ASYNC and O_DIRECT are the bits 6, 8, 13 and 14, O_NOFOLLOW is bit 17.
unfoldable pub virtio_p9_openflags : ℕ → ℕ
virtio_p9_openflags flags =
    set_bit (clear_bit (clear_bit (clear_bit (clear_bit flags 8) 13) 6) 14) 17

-- P9_STATS_BASIC is 0x7ff.
unfoldable pub virtio_p9_fill_stat : Stat → StatDotl
unfolding stat2qid
virtio_p9_fill_stat st = record {
  st_result_mask = 2047;
  qid = stat2qid st;
  st_mode = st.st_mode;
  st_uid = st.st_uid;
  st_gid = st.st_gid;
  st_sizes = (st.st_nlink, st.st_rdev, st.st_size, st.st_blksize, st.st_blocks);
  st_atime = st.st_atime;
  st_mtime = st.st_mtime;
  st_ctime = st.st_ctime;
  st_btime = (0, 0);
  st_gen = 0;
  st_data_version = 0;
}

module _ {H : Type 0} where
  abbrev pub raised : FullPath → Exec H Text
  raised (full path) = pure path
  raised (refused e) = raise_errno e

  -- `get_full_path`
  unfoldable pub get_full_path : ℕ → Text → Exec H Text
  get_full_path p name = do dirname ← abs_path p; raised (get_full_path_helper dirname name)

module _ {H : Type 0} (os : Host H) where
  unfoldable pub virtio_p9_set_reply_header : ℕ → Exec H (Unit {0})
  virtio_p9_set_reply_header size = do
    seek_read 4
    cmd ← read_num os is_byte
    tag ← read_num os is_word
    seek_write 0
    -- cmd + 1 is the reply message
    writef (dword size ∷ byte (cmd + 1) ∷ word tag ∷ [])

  -- How most handlers end; the result is `*outlen`.
  unfoldable pub send_reply : Exec H ℕ
  send_reply = do outlen ← current_offset; virtio_p9_set_reply_header outlen; pure outlen

  -- P9_RLERROR is 7.
  unfoldable pub virtio_p9_error_reply : ℕ → Exec H ℕ
  virtio_p9_error_reply error = do
    seek_write hdr_len
    writef (dword (reported error) ∷ [])
    outlen ← current_offset
    seek_read 5
    tag ← read_num os is_word
    seek_write 0
    writef (dword outlen ∷ byte 7 ∷ word tag ∷ [])
    pure outlen

  abbrev pub handled : Ending ℕ × P9 H → Ending ℕ × P9 H
  handled (ok outlen, s) = (ok outlen, s)
  handled (err error, s) = virtio_p9_error_reply error s
  handled (fault, s) = (fault, s)
  handled (out_of_fuel, s) = (out_of_fuel, s)

  -- The label `err_out`.
  unfoldable pub or_error : Exec H ℕ → Exec H ℕ
  or_error handler s = handled (handler s)

  unfoldable pub stat_rel : Text → Exec H Stat
  stat_rel path = do
    root ← get_state (λ s. s.root_dir)
    full_path ← raised (get_full_path_helper root path)
    call (os.lstat full_path)

  abbrev filled : SysAnswer Stat → Stat
  filled (done st) = st
  filled (failed e) = os.junk_stat

  -- `is_dir`, which does not look whether `stat` has failed.
  unfoldable pub is_dir : ℕ → Exec H Bool
  is_dir p = do path ← abs_path p; st ← ask (os.stat path); pure (s_isdir (filled st))
