-- ===== src/P9/Safety/Requests.antt =====
-- One request: what the host keeps as long as its paths are below the root, the server keeps.
use kvmc.Prelude.{ℕ, arith, ◌≢◌, refl, ap, ◌∙◌, List, [], ◌∷◌, some, All}
use kvmc.P9.{Text, Host, P9}
use kvmc.P9.Fids.{FidBalance}
use kvmc.P9.Server.{
  Handler, readdir, statfs, getattr, setattr, xattr, mknod, lock, getlock, renameat, readlink,
  unlinkat, mkdir, version, lopen, attach, walk, clunk, fsync, read, flush, link, symlink, lcreate,
  write, remove, handler_for, virtio_9p_dotl_handler, run_handler, do_io_request, do_io, get_cmd,
}
use kvmc.P9.Safety.{
  Respects, IsSafe, Anything, Keeps, Keeps-then, Keeps-any, Keeps-bind, Keeps-deref, Keeps-modify,
}
use kvmc.P9.Safety.Entries.{
  Keeps-clunk, Keeps-version, Keeps-getattr, Keeps-mkdir, Keeps-open, Keeps-attach, Keeps-setattr,
  Keeps-statfs, Keeps-fsync, Keeps-lock, Keeps-getlock, Keeps-flush, Keeps-eopnotsupp, Keeps-mknod,
  Keeps-symlink, Keeps-link, Keeps-readlink, Keeps-remove, Keeps-unlinkat, Keeps-rename,
  Keeps-create,
}
use kvmc.P9.Safety.Transfer.{Keeps-read, Keeps-write, Keeps-readdir, Keeps-walk}

-- A request that is not P9_TRENAMEAT.
abbrev pub IsOther : List (List ℕ) × List (List ℕ) → Type 0
IsOther (in_iov, out_iov) = get_cmd out_iov ≢ some 74

module _ {H : Type 0} {os : Host H} {root : Text} {I : H → Type 0} (resp : Respects os root I)
    (tree : FidBalance) where
  handler-Keeps :
      (fuel : ℕ) (h : Handler) → h ≢ renameat → Keeps root I Anything (run_handler os tree fuel h)
  unfolding run_handler
  handler-Keeps fuel readdir n = Keeps-readdir resp tree fuel
  handler-Keeps fuel statfs n = Keeps-statfs resp tree
  handler-Keeps fuel getattr n = Keeps-getattr resp tree
  handler-Keeps fuel setattr n = Keeps-setattr resp tree
  handler-Keeps fuel xattr n = Keeps-eopnotsupp resp tree
  handler-Keeps fuel mknod n = Keeps-mknod resp tree
  handler-Keeps fuel lock n = Keeps-lock resp tree
  handler-Keeps fuel getlock n = Keeps-getlock resp tree
  handler-Keeps fuel renameat n = absurd (n refl)
  handler-Keeps fuel readlink n = Keeps-readlink resp tree
  handler-Keeps fuel unlinkat n = Keeps-unlinkat resp tree
  handler-Keeps fuel mkdir n = Keeps-mkdir resp tree
  handler-Keeps fuel version n = Keeps-version resp tree
  handler-Keeps fuel lopen n = Keeps-open resp tree
  handler-Keeps fuel attach n = Keeps-attach resp tree
  handler-Keeps fuel walk n = Keeps-walk resp tree fuel
  handler-Keeps fuel clunk n = Keeps-clunk resp tree
  handler-Keeps fuel fsync n = Keeps-fsync resp tree
  handler-Keeps fuel read n = Keeps-read resp tree
  handler-Keeps fuel flush n = Keeps-flush resp tree
  handler-Keeps fuel link n = Keeps-link resp tree
  handler-Keeps fuel symlink n = Keeps-symlink resp tree
  handler-Keeps fuel lcreate n = Keeps-create resp tree
  handler-Keeps fuel write n = Keeps-write resp tree
  handler-Keeps fuel remove n = Keeps-remove resp tree
  handler-Keeps fuel Handler.rename n = Keeps-rename resp tree

  -- A message other than P9_TRENAMEAT.
  handler_for-renameat : (cmd : ℕ) → cmd ≢ 74 → handler_for cmd virtio_9p_dotl_handler ≢ renameat
  unfolding handler_for
  handler_for-renameat cmd n e = ground (arith, e)

  request-Keeps :
      (fuel : ℕ) (in_iov out_iov : List (List ℕ))
      → get_cmd out_iov ≢ some 74
      → Keeps root I Anything (do_io_request os tree fuel in_iov out_iov)
  unfolding do_io_request
  request-Keeps fuel in_iov out_iov n =
      Keeps-then _ _ (Keeps-modify _ (λ s. refl) (λ s. refl) (λ s. refl)) (λ _.
        Keeps-bind {P = λ cmd. cmd ≢ 74} _ _
          (Keeps-deref (get_cmd out_iov) (λ cmd e same. n (e ∙ ap some same)))
          (λ cmd other. handler-Keeps fuel _ (handler_for-renameat cmd other)))

  do_io-Keeps :
      (fuel : ℕ) (requests : List (List (List ℕ) × List (List ℕ)))
      → All IsOther requests
      → Keeps root I Anything (do_io os tree fuel requests)
  unfolding do_io
  do_io-Keeps fuel [] others = Keeps-any []
  do_io-Keeps fuel ((in_iov, out_iov) ∷ requests) others =
      Keeps-then _ _ (request-Keeps fuel in_iov out_iov others.0) (λ len.
        Keeps-then _ _ (do_io-Keeps fuel requests others.1) (λ lens. Keeps-any (len ∷ lens)))

  -- Whatever requests the guest sends, one after the other, but no P9_TRENAMEAT: from a state whose
  -- fids are below the root directory they leave such a state, and the host keeps every property that
  -- it keeps as long as the paths it is given are below the root directory, without a component "..".
  pub do_io-IsSafe :
      (fuel : ℕ) (requests : List (List (List ℕ) × List (List ℕ))) (s : P9 H)
      → All IsOther requests
      → IsSafe root I s
      → IsSafe root I (do_io os tree fuel requests s).1
  do_io-IsSafe fuel requests s others h = ((do_io-Keeps fuel requests others).at s h).0
