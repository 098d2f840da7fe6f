-- ===== src/P9/Walk.antt =====
-- hw/virtio/9p.c: `virtio_p9_walk`. Its loop counts in a byte up to a 16-bit number; it runs on
-- fuel.
use kvmc.Prelude.{ℕ, zero, suc, ◌+◌, ◌%◌, [], ◌∷◌, ◌++◌, ltb, leb, ◌==◌, if◌then◌else◌, length}
use kvmc.P9Pdu.{dword, is_word, is_dword, qid_args}
use kvmc.P9.{Text, Host, Exec, out_of_fuel, pure, raise_errno, modify, ◌>>=◌, ◌>>◌}
use kvmc.P9.Paths.{path_max}
use kvmc.P9.Fids.{FidBalance, get_fid, load_fid, update_fid, join_path}
use kvmc.P9.Replies.{
  hdr_len, read_num, read_name, writef, seek_write, current_offset, or_error, stat_rel, stat2qid,
  virtio_p9_set_reply_header,
}

module _ {H : Type 0} where
  -- `join_path`, where a failure is ENAMETOOLONG.
  unfoldable pub join_or_raise : ℕ → Text → Exec H (Unit {0})
  join_or_raise p name = do fits ← join_path p name; if fits then pure tt else raise_errno 36

  -- The room for the count of qids.
  unfoldable pub skip_word : Exec H (Unit {0})
  skip_word =
      modify (λ s. record s { pdu = record s.pdu { write_offset = s.pdu.write_offset + 2 } })

module _ {H : Type 0} (os : Host H) where
  -- One round: a step into the entry that is named next.
  unfoldable pub walk_step : ℕ → ℕ → Exec H (Unit {0})
  walk_step new_fid fid = do
    name ← read_name os
    c ← load_fid new_fid
    let tmp = c.path ++ (47 ∷ name)
    if leb path_max (length tmp) then raise_errno 36 else pure tt
    st ← stat_rel os tmp
    join_or_raise new_fid tmp
    old ← load_fid fid
    update_fid new_fid (λ c. record c { uid = old.uid })
    writef (qid_args (stat2qid st))

  -- `for (i = 0; i < nwname; i++)` from `i` on; `nwqid` at its end.
  unfoldable pub walk_steps : ℕ → ℕ → ℕ → ℕ → ℕ → ℕ → Exec H ℕ
  walk_steps zero new_fid fid nwname i nwqid =
      if ltb i nwname then (λ s. (out_of_fuel, s)) else pure nwqid
  walk_steps (suc fuel) new_fid fid nwname i nwqid =
      if ltb i nwname
      then (walk_step new_fid fid
          >> walk_steps fuel new_fid fid nwname ((i + 1) % 256) ((nwqid + 1) % 65536))
      else pure nwqid

module _ {H : Type 0} (os : Host H) (tree : FidBalance) where
  -- The two branches on `nwname`.
  unfoldable pub walk_names : ℕ → ℕ → ℕ → ℕ → Exec H ℕ
  walk_names fuel fid_val new_fid nwname = do
    fid ← get_fid os tree fid_val
    c ← load_fid fid
    join_or_raise new_fid c.path
    skip_word
    walk_steps os fuel new_fid fid nwname 0 0

  unfoldable pub walk_none : ℕ → ℕ → Exec H ℕ
  walk_none fid_val new_fid = do
    skip_word
    old_fid ← get_fid os tree fid_val
    c ← load_fid old_fid
    join_or_raise new_fid c.path
    update_fid new_fid (λ n. record n { uid = c.uid })
    pure 0

  unfoldable pub virtio_p9_walk : ℕ → Exec H ℕ
  virtio_p9_walk fuel = do
    fid_val ← read_num os is_dword
    newfid_val ← read_num os is_dword
    nwname ← read_num os is_word
    new_fid ← get_fid os tree newfid_val
    or_error os do
      nwqid ←
          if nwname == 0 then walk_none fid_val new_fid else walk_names fuel fid_val new_fid nwname
      outlen ← current_offset
      seek_write hdr_len
      writef (dword nwqid ∷ [])
      virtio_p9_set_reply_header os outlen
      pure outlen
