-- ===== src/P9/Names.antt =====
-- hw/virtio/9p.c: the handlers that make, remove, link and rename entries of a directory.
pub mod Rename
use kvmc.Prelude.{
  ℕ, zero, suc, ◌+◌, ◌-◌, ◌%◌, List, [], ◌∷◌, ◌++◌, Bool, true, false, Option, none, some, leb,
  ◌==◌, not, ◌&&◌, if◌then◌else◌, length, drop, set, get_elem?,
}
use kvmc.RbTree.{inorder}
use kvmc.P9Pdu.{dword, string, is_dword, qid_args}
use kvmc.P9.{
  Text, Fid, Node, Change, mkdir, chmod, mknod, remove, rename, symlink, link_to, Host, P9, Exec,
  pure, raise_errno, get_state, call, deref, modify, ◌>>=◌, ◌>>◌,
}
use kvmc.P9.Paths.{path_max, c_string, virtio_p9_ancestor}
use kvmc.P9.Fids.{FidBalance, get_fid, abs_path}
use kvmc.P9.Replies.{
  read_num, read_str, read_name, writef, send_reply, or_error, get_full_path, stat2qid,
}

-- The text that `join_path` leaves in a fid, if it fits.
abbrev pub joined_path : Text → Fid → Text → Fid
joined_path root c name =
    if leb (path_max - length root) (length name) then c else record c { path = name }

-- `virtio_p9_fix_path`, whose result nobody reads.
unfoldable pub virtio_p9_fix_path : Text → Text → Text → Fid → Fid
virtio_p9_fix_path root old_name new_name c =
    let rp_sz = length old_name in
    let tmp_name = new_name ++ drop rp_sz c.path in
    if rp_sz == length c.path
    then joined_path root c new_name
    else (if leb path_max (length tmp_name) then c else joined_path root c tmp_name)

-- P9_NOFID
abbrev pub no_fid : ℕ
no_fid = 4294967295

-- What the loop of `rename_fids` does to one fid.
unfoldable pub renamed : Text → Text → Text → Fid → Fid
renamed root old_name new_name c =
    if not (c.fid == no_fid) && virtio_p9_ancestor c.path old_name
    then virtio_p9_fix_path root old_name new_name c
    else c

abbrev pub changed_at : (Fid → Fid) → ℕ → List Fid → Option Fid → List Fid
changed_at f p store none = store
changed_at f p store (some c) = set store p (f c)

-- The loop of `rename_fids`, from `rb_first` by `rb_next`.
unfoldable pub rename_each : (Fid → Fid) → List Node → List Fid → List Fid
rename_each f [] store = store
rename_each f (x ∷ xs) store = rename_each f xs (changed_at f x.at store (get_elem? store x.at))

module _ {H : Type 0} where
  unfoldable pub rename_fids : Text → Text → Exec H (Unit {0})
  rename_fids old_name new_name = modify (λ s. record s {
    store = rename_each (renamed s.root_dir old_name new_name) (inorder s.fids) s.store;
  })

  -- The kernel refuses a target that is NULL with EFAULT.
  abbrev pub target_of : Option Text → Exec H Text
  target_of none = raise_errno 14
  target_of (some path) = pure path

module _ {H : Type 0} (os : Host H) (tree : FidBalance) where
  unfoldable pub virtio_p9_mkdir : Exec H ℕ
  virtio_p9_mkdir = do
    dfid_val ← read_num os is_dword
    named ← read_str os
    mode ← read_num os is_dword
    gid ← read_num os is_dword
    dfid ← get_fid os tree dfid_val
    name ← deref named
    or_error os do
      full_path ← get_full_path dfid name
      call (os.change (mkdir full_path mode))
      st ← call (os.lstat full_path)
      call (os.change (chmod full_path (mode % 512)))
      writef (qid_args (stat2qid st) ++ (dword 0 ∷ []))
      send_reply os

  unfoldable pub virtio_p9_mknod : Exec H ℕ
  virtio_p9_mknod = do
    fid_val ← read_num os is_dword
    named ← read_str os
    mode ← read_num os is_dword
    major ← read_num os is_dword
    minor ← read_num os is_dword
    gid ← read_num os is_dword
    dfid ← get_fid os tree fid_val
    name ← deref named
    or_error os do
      full_path ← get_full_path dfid name
      call (os.change (mknod full_path mode major minor))
      st ← call (os.lstat full_path)
      call (os.change (chmod full_path (mode % 512)))
      writef (qid_args (stat2qid st))
      send_reply os

  unfoldable pub virtio_p9_symlink : Exec H ℕ
  virtio_p9_symlink = do
    fid_val ← read_num os is_dword
    named ← read_str os
    target ← read_str os
    gid ← read_num os is_dword
    dfid ← get_fid os tree fid_val
    name ← deref named
    or_error os do
      new_name ← get_full_path dfid name
      old_path ← target_of target
      call (os.change (symlink old_path new_name))
      st ← call (os.lstat new_name)
      writef (qid_args (stat2qid st))
      send_reply os

  unfoldable pub virtio_p9_link : Exec H ℕ
  virtio_p9_link = do
    dfid_val ← read_num os is_dword
    fid_val ← read_num os is_dword
    named ← read_str os
    dfid ← get_fid os tree dfid_val
    fid ← get_fid os tree fid_val
    name ← deref named
    or_error os do
      full_path ← get_full_path dfid name
      path ← abs_path fid
      call (os.change (link_to path full_path))
      send_reply os

  unfoldable pub virtio_p9_readlink : Exec H ℕ
  virtio_p9_readlink = do
    fid_val ← read_num os is_dword
    fid ← get_fid os tree fid_val
    or_error os do
      path ← abs_path fid
      target_path ← call (os.readlink path)
      writef (string (some target_path) ∷ [])
      send_reply os

  unfoldable pub virtio_p9_remove : Exec H ℕ
  virtio_p9_remove = do
    fid_val ← read_num os is_dword
    fid ← get_fid os tree fid_val
    or_error os do path ← abs_path fid; call (os.change (remove path)); send_reply os

  unfoldable pub virtio_p9_unlinkat : Exec H ℕ
  virtio_p9_unlinkat = do
    fid_val ← read_num os is_dword
    named ← read_str os
    flags ← read_num os is_dword
    fid ← get_fid os tree fid_val
    name ← deref named
    or_error os
        do full_path ← get_full_path fid name; call (os.change (remove full_path)); send_reply os

  unfoldable pub virtio_p9_rename : Exec H ℕ
  virtio_p9_rename = do
    fid_val ← read_num os is_dword
    new_fid_val ← read_num os is_dword
    named ← read_str os
    fid ← get_fid os tree fid_val
    new_fid ← get_fid os tree new_fid_val
    new_name ← deref named
    or_error os do
      full_path ← get_full_path new_fid new_name
      path ← abs_path fid
      call (os.change (rename path full_path))
      send_reply os

  -- The part of `virtio_p9_renameat` after the request is read.
  unfoldable pub rename_between : ℕ → Option Text → ℕ → Option Text → Exec H ℕ
  rename_between old_dfid old_named new_dfid new_named = do
    old_name ← deref old_named
    old_full_path ← get_full_path old_dfid old_name
    new_name ← deref new_named
    new_full_path ← get_full_path new_dfid new_name
    call (os.change (rename old_full_path new_full_path))
    rename_fids old_name new_name
    send_reply os

  unfoldable pub virtio_p9_renameat : Exec H ℕ
  virtio_p9_renameat = do
    old_dfid_val ← read_num os is_dword
    old_named ← read_str os
    new_dfid_val ← read_num os is_dword
    new_named ← read_str os
    old_dfid ← get_fid os tree old_dfid_val
    new_dfid ← get_fid os tree new_dfid_val
    or_error os (rename_between old_dfid old_named new_dfid new_named)
