-- ===== src/P9.antt =====
-- hw/virtio/9p.c: the state of the 9p file server, what it asks of the host, and its handlers as
-- actions on that state. Texts are C strings: bytes without the final NUL. A pointer to a
-- `struct p9_fid` is an index of `store`, where a fid keeps its place after it is freed.
pub mod Paths
pub mod Fids
pub mod Replies
pub mod Files
pub mod Names
pub mod Transfer
pub mod Walk
pub mod Server
pub mod Device
pub mod Safety
pub mod Progress
use kvmc.Prelude.{ℕ, ◌%◌, List, Bool, Option, none, some}
use kvmc.RbTree.{Tree}
use kvmc.P9Pdu.{Pdu}

abbrev pub Text : Type 0
Text = List ℕ

-- `struct p9_fid`. `abs_path` is the root directory followed by `path`, which points into it; a NULL
-- `dir` is 0; `fd` is an int in two's complement.
pub record Fid : Type 0 where
  pub fid : ℕ
  pub uid : ℕ
  pub path : Text
  pub dir : ℕ
  pub fd : ℕ

-- A fid in the tree: the key that is compared, and the structure that the node is embedded in.
pub record Node : Type 0 where
  pub key : ℕ
  pub at : ℕ

-- `struct stat`, with seconds and nanoseconds of a time.
pub record Stat : Type 0 where
  pub st_mode : ℕ
  pub st_ino : ℕ
  pub st_nlink : ℕ
  pub st_uid : ℕ
  pub st_gid : ℕ
  pub st_rdev : ℕ
  pub st_size : ℕ
  pub st_blksize : ℕ
  pub st_blocks : ℕ
  pub st_atime : ℕ × ℕ
  pub st_mtime : ℕ × ℕ
  pub st_ctime : ℕ × ℕ

-- `struct statfs`, with the two halves of `f_fsid`.
pub record StatFs : Type 0 where
  pub f_type : ℕ
  pub f_bsize : ℕ
  pub f_blocks : ℕ
  pub f_bfree : ℕ
  pub f_bavail : ℕ
  pub f_files : ℕ
  pub f_ffree : ℕ
  pub f_fsid : ℕ × ℕ
  pub f_namelen : ℕ

-- `struct dirent`
pub record Dirent : Type 0 where
  pub d_off : ℕ
  pub d_type : ℕ
  pub d_name : Text

-- `struct timespec` as utimensat takes it.
pub data Time : Type 0 where
  utime_now utime_omit : Time
  at_time : ℕ → ℕ → Time

-- What a system call returns: a value, or -1 with `errno`.
pub data SysAnswer (A : Type 0) : Type 0 where
  done : A → SysAnswer A
  failed : ℕ → SysAnswer A

-- The system calls that change something at a path.
pub data Change : Type 0 where
  mkdir : Text → ℕ → Change
  chmod : Text → ℕ → Change
  mknod : Text → ℕ → ℕ → ℕ → Change
  remove : Text → Change
  rename : Text → Text → Change
  symlink : Text → Text → Change
  link_to : Text → Text → Change
  lchown : Text → ℕ → ℕ → Change
  truncate : Text → ℕ → Change
  utimensat : Text → Time → Time → Change

-- The C library and the kernel: `H` is what they keep between two calls.
pub record Host (H : Type 0) : Type 0 where
  -- What the stack holds in a variable that nothing has been written to.
  pub junk : List ℕ
  pub junk_stat : Stat
  -- What `snprintf` makes of a text that it is also to write over, which the C standard leaves
  -- undefined: a library either reads the text before it writes, or has cut it to nothing.
  pub keeps_overlap : Bool
  pub malloc : H → ℕ → Bool
  pub calloc : H → Bool × H
  pub change : Change → H → SysAnswer (Unit {0}) × H
  pub lstat : Text → H → SysAnswer Stat × H
  pub stat : Text → H → SysAnswer Stat × H
  pub statfs : Text → H → SysAnswer StatFs × H
  pub readlink : Text → H → SysAnswer Text × H
  pub opendir : Text → H → SysAnswer ℕ × H
  pub open_file : Text → ℕ → ℕ → H → SysAnswer ℕ × H
  pub close : ℕ → H → H
  pub closedir : ℕ → H → H
  pub dirfd : ℕ → H → ℕ
  pub seekdir : ℕ → ℕ → H → H
  pub readdir : ℕ → H → Option Dirent × H
  -- fsync, or fdatasync if the test is true
  pub sync : Bool → ℕ → H → SysAnswer (Unit {0}) × H
  -- A descriptor, the room in the buffers and the offset; the bytes that are read.
  pub preadv : ℕ → ℕ → ℕ → H → SysAnswer (List ℕ) × H
  pub pwritev : ℕ → List ℕ → ℕ → H → SysAnswer ℕ × H

-- `struct p9_dev` with the request that is handled and the host.
pub record P9 (H : Type 0) : Type 0 where
  pub root_dir : Text
  pub fids : Tree Node
  pub store : List Fid
  pub pdu : Pdu
  pub host : H

-- How a piece of code ends: with a value, by `goto err_out` with `errno`, with an access outside an
-- object or through NULL, or not within the rounds that a loop was given.
pub data Ending (A : Type 0) : Type 0 where
  ok : A → Ending A
  err : ℕ → Ending A
  fault : Ending A
  out_of_fuel : Ending A

abbrev pub Exec : Type 0 → Type 0 → Type 0
Exec H A = P9 H → Ending A × P9 H

module _ {H A : Type 0} where
  pub pure : A → Exec H A
  pure a s = (ok a, s)

  pub raise_errno : ℕ → Exec H A
  raise_errno e s = (err e, s)

  pub crash : Exec H A
  crash s = (fault, s)

  pub get_state : (P9 H → A) → Exec H A
  get_state f s = (ok (f s), s)

  abbrev pub after_call : SysAnswer A × H → P9 H → Ending A × P9 H
  after_call (done a, h) s = (ok a, record s { host = h })
  after_call (failed e, h) s = (err e, record s { host = h })

  -- A system call whose failure ends the handler.
  pub call : (H → SysAnswer A × H) → Exec H A
  call f s = after_call (f s.host) s

  -- A system call whose result is looked at afterwards, or not at all.
  pub ask : (H → A × H) → Exec H A
  ask f s = let (a, h) = f s.host in (ok a, record s { host = h })

  -- The value behind a pointer that may be NULL.
  pub deref : Option A → Exec H A
  unfolding pure crash
  deref none = crash
  deref (some a) = pure a

module _ {H : Type 0} where
  pub modify : (P9 H → P9 H) → Exec H (Unit {0})
  modify f s = (ok tt, f s)

  pub run_host : (H → H) → Exec H (Unit {0})
  run_host f s = (ok tt, record s { host = f s.host })

module _ {H A B : Type 0} where
  abbrev pub continue : Ending A → (A → Exec H B) → Exec H B
  continue (ok a) f s = f a s
  continue (err e) f s = (err e, s)
  continue fault f s = (fault, s)
  continue out_of_fuel f s = (out_of_fuel, s)

  infixl 10 ◌>>=◌ ◌>>◌
  -- Opening this opens the actions above too.
  unfoldable pub ◌>>=◌ : Exec H A → (A → Exec H B) → Exec H B
  unfolding pure raise_errno crash get_state call ask deref modify run_host
  ◌>>=◌ m f s = let (r, s') = m s in continue r f s'

  abbrev pub ◌>>◌ : Exec H A → Exec H B → Exec H B
  m >> n = m >>= λ _. n
