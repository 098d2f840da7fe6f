-- ===== src/P9/Server.antt =====
-- hw/virtio/9p.c: the table of handlers, one request, and the requests of the queue.
mod Tests
use kvmc.Prelude.{
  ℕ, zero, suc, ◌+◌, List, [], ◌∷◌, Bool, true, false, Option, none, some, leb, ◌==◌, ◌||◌,
  if◌then◌else◌,
}
use kvmc.P9Pdu.{Pdu}
use kvmc.P9.{Host, P9, Exec, pure, crash, get_state, modify, deref, ◌>>=◌, ◌>>◌}
use kvmc.P9.Fids.{FidBalance}
use kvmc.P9.Replies.{hdr_len}
use kvmc.P9.Files.{
  virtio_p9_version, virtio_p9_clunk, virtio_p9_open, virtio_p9_create, virtio_p9_attach,
  virtio_p9_getattr, virtio_p9_setattr, virtio_p9_statfs, virtio_p9_fsync, virtio_p9_lock,
  virtio_p9_getlock, virtio_p9_flush, virtio_p9_eopnotsupp,
}
use kvmc.P9.Names.{
  virtio_p9_mkdir, virtio_p9_mknod, virtio_p9_symlink, virtio_p9_link, virtio_p9_readlink,
  virtio_p9_remove, virtio_p9_unlinkat, virtio_p9_rename, virtio_p9_renameat,
}
use kvmc.P9.Transfer.{virtio_p9_read, virtio_p9_write, virtio_p9_readdir}
use kvmc.P9.Walk.{virtio_p9_walk}

-- The entries of `virtio_9p_dotl_handler`; every other one is NULL.
pub data Handler : Type 0 where
  readdir statfs getattr setattr xattr mknod lock getlock renameat readlink unlinkat mkdir : Handler
  version lopen attach walk clunk fsync read flush link symlink lcreate write remove rename :
      Handler

abbrev pub virtio_9p_dotl_handler : List (ℕ × Handler)
virtio_9p_dotl_handler =
    (40, readdir)
    ∷ (8, statfs)
    ∷ (24, getattr)
    ∷ (26, setattr)
    ∷ (30, xattr)
    ∷ (32, xattr)
    ∷ (18, mknod)
    ∷ (52, lock)
    ∷ (54, getlock)
    ∷ (74, renameat)
    ∷ (22, readlink)
    ∷ (76, unlinkat)
    ∷ (72, mkdir)
    ∷ (100, version)
    ∷ (12, lopen)
    ∷ (104, attach)
    ∷ (110, walk)
    ∷ (120, clunk)
    ∷ (50, fsync)
    ∷ (116, read)
    ∷ (108, flush)
    ∷ (70, link)
    ∷ (16, symlink)
    ∷ (14, lcreate)
    ∷ (118, write)
    ∷ (122, remove)
    ∷ (20, rename)
    ∷ []

-- `virtio_9p_dotl_handler[cmd]`, and `virtio_p9_eopnotsupp` where there is none.
unfoldable pub handler_for : ℕ → List (ℕ × Handler) → Handler
handler_for cmd [] = xattr
handler_for cmd ((n, h) ∷ rest) = if cmd == n then h else handler_for cmd rest

-- `virtio_p9_get_cmd`: the byte behind the size in the first buffer.
abbrev pub get_cmd : List (List ℕ) → Option ℕ
get_cmd ((a ∷ b ∷ c ∷ d ∷ cmd ∷ rest) ∷ iov) = some cmd
get_cmd iov = none

module _ {H : Type 0} (os : Host H) (tree : FidBalance) where
  -- The handler behind an entry; the loops of `readdir` and `walk` are given fuel.
  unfoldable pub run_handler : ℕ → Handler → Exec H ℕ
  run_handler fuel readdir = virtio_p9_readdir os tree fuel
  run_handler fuel statfs = virtio_p9_statfs os tree
  run_handler fuel getattr = virtio_p9_getattr os tree
  run_handler fuel setattr = virtio_p9_setattr os tree
  run_handler fuel xattr = virtio_p9_eopnotsupp os tree
  run_handler fuel mknod = virtio_p9_mknod os tree
  run_handler fuel lock = virtio_p9_lock os tree
  run_handler fuel getlock = virtio_p9_getlock os tree
  run_handler fuel renameat = virtio_p9_renameat os tree
  run_handler fuel readlink = virtio_p9_readlink os tree
  run_handler fuel unlinkat = virtio_p9_unlinkat os tree
  run_handler fuel mkdir = virtio_p9_mkdir os tree
  run_handler fuel version = virtio_p9_version os tree
  run_handler fuel lopen = virtio_p9_open os tree
  run_handler fuel attach = virtio_p9_attach os tree
  run_handler fuel walk = virtio_p9_walk os tree fuel
  run_handler fuel clunk = virtio_p9_clunk os tree
  run_handler fuel fsync = virtio_p9_fsync os tree
  run_handler fuel read = virtio_p9_read os tree
  run_handler fuel flush = virtio_p9_flush os tree
  run_handler fuel link = virtio_p9_link os tree
  run_handler fuel symlink = virtio_p9_symlink os tree
  run_handler fuel lcreate = virtio_p9_create os tree
  run_handler fuel write = virtio_p9_write os tree
  run_handler fuel remove = virtio_p9_remove os tree
  run_handler fuel rename = virtio_p9_rename os tree

  -- `virtio_p9_pdu_init` on the buffers of the request, and the call of the handler in
  -- `virtio_p9_do_io_request`; the result is the length that goes to the used ring.
  unfoldable pub do_io_request : ℕ → List (List ℕ) → List (List ℕ) → Exec H ℕ
  do_io_request fuel in_iov out_iov = do
    modify (λ s. record s {
      pdu = record {
        read_offset = hdr_len;
        write_offset = hdr_len;
        out_iov = out_iov;
        in_iov = in_iov;
      };
    })
    cmd ← deref (get_cmd out_iov)
    run_handler fuel (handler_for cmd virtio_9p_dotl_handler)

  -- The loop of `virtio_p9_do_io` over the requests that the queue has, as their buffers: the lengths
  -- that go to the used ring. A fault ends the process.
  unfoldable pub do_io : ℕ → List (List (List ℕ) × List (List ℕ)) → Exec H (List ℕ)
  do_io fuel [] = pure []
  do_io fuel ((in_iov, out_iov) ∷ requests) =
      do_io_request fuel in_iov out_iov >>= λ len. do_io fuel requests >>= λ lens. pure (len ∷ lens)
