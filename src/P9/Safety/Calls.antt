-- ===== src/P9/Safety/Calls.antt =====
-- System calls, and the parts of the handlers, as actions that keep the server safe.
use kvmc.Prelude.{ℕ, ◌≡◌, refl, [], ◌∷◌, Bool, true, false, Option, none, some, All}
use kvmc.P9Pdu.{is_dword}
use kvmc.P9.{Host, SysAnswer, done, failed, call, Change, Text}
use kvmc.P9.Paths.Components.{climbs, up_next}
use kvmc.P9.Replies.{virtio_p9_openflags}
use kvmc.P9.Fids.{update_fid, join_path}
use kvmc.P9.Files.{Iattr, read_iattr, set_attributes, opened_dir, opened_file, open_as, when}
use kvmc.P9.Names.{target_of}
use kvmc.P9.Safety.{
  Inside, FidInside, Respects, Anything, Keeps, Keeps-call, Keeps-ask, Keeps-then, Keeps-any,
  Keeps-path, Keeps-raise_errno, paths_of, keeps_rules,
}
use kvmc.P9.Safety.Session.{
  Keeps-load_fid, Keeps-update_fid, Keeps-abs_path, Keeps-join_path, Keeps-writef, Keeps-seek_read,
  Keeps-seek_write, Keeps-current_offset, Keeps-get_full_path, Keeps-deref_any, Keeps-root_path,
}
use kvmc.P9.Safety.Messages.{
  Keeps-read_num, Keeps-read_str, Keeps-read_name, Keeps-set_reply_header, Keeps-send_reply,
  Keeps-error_reply, Keeps-or_error, Keeps-lstat, Keeps-change, Keeps-is_dir, Keeps-get_fid,
  Keeps-close_fid,
}

pub ruleset request_rules = (
  keeps_rules, Keeps-load_fid, Keeps-abs_path, Keeps-writef, Keeps-get_full_path, Keeps-read_num,
  Keeps-read_str, Keeps-read_name, Keeps-deref_any, Keeps-set_reply_header, Keeps-send_reply,
  Keeps-or_error, Keeps-seek_write, Keeps-current_offset,
)

module _ {H : Type 0} {os : Host H} {root : Text} {I : H → Type 0} (resp : Respects os root I) where
  pub Keeps-statfs_call : (p : Text) → Inside root p → Keeps root I Anything (call (os.statfs p))
  Keeps-statfs_call p i = Keeps-call (os.statfs p) (λ h. resp.statfs-I p h i)

  pub Keeps-readlink_call :
      (p : Text) → Inside root p → Keeps root I Anything (call (os.readlink p))
  Keeps-readlink_call p i = Keeps-call (os.readlink p) (λ h. resp.readlink-I p h i)

  pub Keeps-open_call :
      (p : Text) (flags mode : ℕ)
      → Inside root p
      → Keeps root I Anything (call (os.open_file p flags mode))
  Keeps-open_call p flags mode i =
      Keeps-call (os.open_file p flags mode) (λ h. resp.open_file-I p flags mode h i)

  pub Keeps-sync : (b : Bool) (fd : ℕ) → Keeps root I Anything (call (os.sync b fd))
  Keeps-sync b fd = Keeps-call (os.sync b fd) (resp.sync-I b fd)

  -- What opening, or a failure, leaves in the fid is not a path.
  pub Keeps-set_dir :
      (p d : ℕ) → Keeps {H = H} root I Anything (update_fid p (λ c. record c { dir = d }))
  Keeps-set_dir p d = Keeps-update_fid p _ (λ c i. i)

  pub Keeps-set_fd :
      (p fd : ℕ) → Keeps {H = H} root I Anything (update_fid p (λ c. record c { fd = fd }))
  Keeps-set_fd p fd = Keeps-update_fid p _ (λ c i. i)

  pub Keeps-set_uid :
      (p uid : ℕ) → Keeps {H = H} root I Anything (update_fid p (λ c. record c { uid = uid }))
  Keeps-set_uid p uid = Keeps-update_fid p _ (λ c i. i)

  pub Keeps-opened_dir : (p : ℕ) (a : SysAnswer ℕ) → Keeps {H = H} root I Anything (opened_dir p a)
  Keeps-opened_dir p (done d) = Keeps-set_dir p d
  Keeps-opened_dir p (failed e) = search (keeps_rules, Keeps-set_dir)

  pub Keeps-opened_file :
      (p : ℕ) (a : SysAnswer ℕ) → Keeps {H = H} root I Anything (opened_file p a)
  Keeps-opened_file p (done d) = Keeps-set_fd p d
  Keeps-opened_file p (failed e) = search (keeps_rules, Keeps-set_fd)

  pub Keeps-open_as :
      (p : ℕ) (path : Text) (flags : ℕ) (dir : Bool)
      → Inside root path
      → Keeps root I Anything (open_as os p path flags dir)
  unfolding open_as
  Keeps-open_as p path flags true i =
      Keeps-then _ _ (Keeps-ask (os.opendir path) (λ h. resp.opendir-I path h i))
        (Keeps-opened_dir p)
  Keeps-open_as p path flags false i =
      Keeps-then _ _
        (Keeps-ask (os.open_file path (virtio_p9_openflags flags) 0)
          (λ h. resp.open_file-I path (virtio_p9_openflags flags) 0 h i))
        (Keeps-opened_file p)

  pub Keeps-when :
      (b : Bool) (c : Change) → All (Inside root) (paths_of c) → Keeps root I Anything (when os b c)
  unfolding when
  Keeps-when true c i = Keeps-change resp c i
  Keeps-when false c i = Keeps-any tt

  slash_flat : climbs (47 ∷ []) ≡ false
  unfolding climbs up_next
  slash_flat = refl

  pub Keeps-read_iattr : Keeps root I Anything (read_iattr os)
  unfolding read_iattr
  Keeps-read_iattr =
      Keeps-then _ _ (Keeps-read_num os is_dword) (λ v. search request_rules depth 40)

  pub Keeps-set_attributes :
      (path : Text) (a : Iattr)
      → Inside root path
      → Keeps root I Anything (set_attributes os path a)
  unfolding set_attributes
  Keeps-set_attributes path a i =
      Keeps-then _ _ (Keeps-when _ _ (i, tt)) (λ _. search (request_rules, Keeps-when))

  pub Keeps-join_slash : (p : ℕ) → Keeps {H = H} root I Anything (join_path p (47 ∷ []))
  Keeps-join_slash p = Keeps-join_path p (47 ∷ []) refl slash_flat

  -- A target that is NULL.
  pub Keeps-target : (o : Option Text) → Keeps {H = H} root I Anything (target_of o)
  Keeps-target none = Keeps-raise_errno 14
  Keeps-target (some path) = Keeps-any path
