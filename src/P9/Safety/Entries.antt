-- ===== src/P9/Safety/Entries.antt =====
-- The handlers, as actions that keep the server safe.
use kvmc.P9Pdu.{is_word, is_dword}
use kvmc.P9.{Host, Text}
use kvmc.P9.Fids.{FidBalance}
use kvmc.P9.Files.{
  virtio_p9_version, virtio_p9_clunk, virtio_p9_open, virtio_p9_create, virtio_p9_attach,
  virtio_p9_getattr, virtio_p9_setattr, virtio_p9_statfs, virtio_p9_fsync, virtio_p9_lock,
  virtio_p9_getlock, virtio_p9_flush, virtio_p9_eopnotsupp,
}
use kvmc.P9.Names.{
  virtio_p9_mkdir, virtio_p9_mknod, virtio_p9_symlink, virtio_p9_link, virtio_p9_readlink,
  virtio_p9_remove, virtio_p9_unlinkat, virtio_p9_rename,
}
use kvmc.P9.Safety.{Respects, Anything, Keeps, Keeps-then, Keeps-path}
use kvmc.P9.Safety.Create.{Keeps-name_in}
use kvmc.P9.Safety.Session.{Keeps-deref_any, Keeps-root_path}
use kvmc.P9.Safety.Messages.{
  Keeps-read_num, Keeps-read_str, Keeps-error_reply, Keeps-or_error, Keeps-lstat, Keeps-change,
  Keeps-is_dir, Keeps-get_fid, Keeps-close_fid,
}
use kvmc.P9.Safety.Calls.{
  Keeps-statfs_call, Keeps-readlink_call, Keeps-open_call, Keeps-sync, Keeps-set_fd, Keeps-set_uid,
  Keeps-open_as, Keeps-read_iattr, Keeps-set_attributes, Keeps-join_slash, Keeps-target,
  request_rules,
}

module _ {H : Type 0} {os : Host H} {root : Text} {I : H → Type 0} (resp : Respects os root I)
    (tree : FidBalance) where
  pub Keeps-clunk : Keeps root I Anything (virtio_p9_clunk os tree)
  unfolding virtio_p9_clunk
  Keeps-clunk =
      Keeps-then _ _ (Keeps-read_num os is_dword)
        (λ fid. search (request_rules, Keeps-close_fid resp tree) depth 40)

  pub Keeps-version : Keeps root I Anything (virtio_p9_version os tree)
  unfolding virtio_p9_version
  Keeps-version = Keeps-then _ _ (Keeps-read_num os is_dword) (λ fid. search request_rules depth 40)

  pub Keeps-getattr : Keeps root I Anything (virtio_p9_getattr os tree)
  unfolding virtio_p9_getattr
  Keeps-getattr =
      Keeps-then _ _ (Keeps-read_num os is_dword)
        (λ fid. search (request_rules, Keeps-get_fid resp tree, Keeps-lstat resp) depth 40)

  pub Keeps-mkdir : Keeps root I Anything (virtio_p9_mkdir os tree)
  unfolding virtio_p9_mkdir
  Keeps-mkdir = Keeps-then _ _ (Keeps-read_num os is_dword) (λ fid.
      search (request_rules, Keeps-get_fid resp tree, Keeps-lstat resp, Keeps-change resp) depth 40)

  pub Keeps-open : Keeps root I Anything (virtio_p9_open os tree)
  unfolding virtio_p9_open
  Keeps-open = Keeps-then _ _ (Keeps-read_num os is_dword) (λ fid.
      search
        (
          request_rules,
          Keeps-get_fid resp tree,
          Keeps-lstat resp,
          Keeps-is_dir resp,
          Keeps-open_as resp,
        )
        depth 40)

  pub Keeps-setattr : Keeps root I Anything (virtio_p9_setattr os tree)
  unfolding virtio_p9_setattr
  Keeps-setattr = Keeps-then _ _ (Keeps-read_num os is_dword) (λ fid.
      Keeps-then _ _ (Keeps-read_iattr resp)
        (λ a. search (request_rules, Keeps-get_fid resp tree, Keeps-set_attributes resp) depth 40))

  pub Keeps-statfs : Keeps root I Anything (virtio_p9_statfs os tree)
  unfolding virtio_p9_statfs
  Keeps-statfs =
      Keeps-then _ _ (Keeps-read_num os is_dword)
        (λ fid. search (request_rules, Keeps-get_fid resp tree, Keeps-statfs_call resp) depth 40)

  pub Keeps-fsync : Keeps root I Anything (virtio_p9_fsync os tree)
  unfolding virtio_p9_fsync
  Keeps-fsync =
      Keeps-then _ _ (Keeps-read_num os is_dword)
        (λ fid. search (request_rules, Keeps-get_fid resp tree, Keeps-sync resp) depth 40)

  pub Keeps-lock : Keeps root I Anything (virtio_p9_lock os tree)
  unfolding virtio_p9_lock
  Keeps-lock = Keeps-then _ _ (Keeps-read_num os is_dword) (λ fid. search request_rules depth 40)

  pub Keeps-getlock : Keeps root I Anything (virtio_p9_getlock os tree)
  unfolding virtio_p9_getlock
  Keeps-getlock = Keeps-then _ _ (Keeps-read_num os is_dword) (λ fid. search request_rules depth 40)

  pub Keeps-flush : Keeps root I Anything (virtio_p9_flush os tree)
  unfolding virtio_p9_flush
  Keeps-flush = Keeps-then _ _ (Keeps-read_num os is_word) (λ fid. search request_rules depth 40)

  pub Keeps-mknod : Keeps root I Anything (virtio_p9_mknod os tree)
  unfolding virtio_p9_mknod
  Keeps-mknod = Keeps-then _ _ (Keeps-read_num os is_dword) (λ fid.
      search (request_rules, Keeps-get_fid resp tree, Keeps-lstat resp, Keeps-change resp) depth 40)

  pub Keeps-link : Keeps root I Anything (virtio_p9_link os tree)
  unfolding virtio_p9_link
  Keeps-link =
      Keeps-then _ _ (Keeps-read_num os is_dword)
        (λ fid. search (request_rules, Keeps-get_fid resp tree, Keeps-change resp) depth 40)

  pub Keeps-readlink : Keeps root I Anything (virtio_p9_readlink os tree)
  unfolding virtio_p9_readlink
  Keeps-readlink =
      Keeps-then _ _ (Keeps-read_num os is_dword)
        (λ fid. search (request_rules, Keeps-get_fid resp tree, Keeps-readlink_call resp) depth 40)

  pub Keeps-remove : Keeps root I Anything (virtio_p9_remove os tree)
  unfolding virtio_p9_remove
  Keeps-remove =
      Keeps-then _ _ (Keeps-read_num os is_dword)
        (λ fid. search (request_rules, Keeps-get_fid resp tree, Keeps-change resp) depth 40)

  pub Keeps-unlinkat : Keeps root I Anything (virtio_p9_unlinkat os tree)
  unfolding virtio_p9_unlinkat
  Keeps-unlinkat =
      Keeps-then _ _ (Keeps-read_num os is_dword)
        (λ fid. search (request_rules, Keeps-get_fid resp tree, Keeps-change resp) depth 40)

  pub Keeps-rename : Keeps root I Anything (virtio_p9_rename os tree)
  unfolding virtio_p9_rename
  Keeps-rename =
      Keeps-then _ _ (Keeps-read_num os is_dword)
        (λ fid. search (request_rules, Keeps-get_fid resp tree, Keeps-change resp) depth 40)

  pub Keeps-symlink : Keeps root I Anything (virtio_p9_symlink os tree)
  unfolding virtio_p9_symlink
  Keeps-symlink = Keeps-then _ _ (Keeps-read_num os is_dword) (λ fid.
      search
        (
          request_rules,
          Keeps-get_fid resp tree,
          Keeps-lstat resp,
          Keeps-change resp,
          Keeps-target resp,
        )
        depth 40)

  pub Keeps-attach : Keeps root I Anything (virtio_p9_attach os tree)
  unfolding virtio_p9_attach
  Keeps-attach = Keeps-then _ _ (Keeps-read_num os is_dword) (λ fid.
      search
        (
          request_rules,
          Keeps-get_fid resp tree,
          Keeps-lstat resp,
          Keeps-set_uid resp,
          Keeps-root_path,
          Keeps-join_slash resp,
        )
        depth 40)

  pub Keeps-create : Keeps root I Anything (virtio_p9_create os tree)
  unfolding virtio_p9_create
  Keeps-create = Keeps-then _ _ (Keeps-read_num os is_dword) (λ fid.
      Keeps-then _ _ (Keeps-read_str os) (λ named.
        Keeps-then _ _ (Keeps-read_num os is_dword) (λ flags.
          Keeps-then _ _ (Keeps-read_num os is_dword) (λ mode.
            Keeps-then _ _ (Keeps-read_num os is_dword) (λ gid.
              Keeps-then _ _ (Keeps-get_fid resp tree fid) (λ dfid.
                Keeps-then _ _ (Keeps-deref_any named) (λ name. Keeps-or_error os _ (
                  Keeps-path _ _ (Keeps-name_in os.keeps_overlap dfid name) (λ path i.
                    Keeps-then _ _ (Keeps-open_call resp _ _ _ i) (λ fd.
                      Keeps-then _ _ (Keeps-set_fd resp dfid fd) (λ _.
                        search (request_rules, Keeps-lstat resp, Keeps-change resp) depth
                          40)))))))))))

  pub Keeps-eopnotsupp : Keeps root I Anything (virtio_p9_eopnotsupp os tree)
  unfolding virtio_p9_eopnotsupp
  Keeps-eopnotsupp = Keeps-error_reply os 95
