-- ===== src/P9/Safety.antt =====
-- Which paths the 9p server hands to the host: rules for the actions it is built of.
pub mod Session
pub mod Messages
pub mod Create
pub mod Calls
pub mod Entries
pub mod Transfer
pub mod Requests
use kvmc.Prelude.{
  ℕ, zero, suc, ◌≡◌, refl, sym, ◌∙◌, List, [], ◌∷◌, ◌++◌, Bool, true, false, Option, none, some,
  arith, All, if◌then◌else◌, get_elem?, set,
}
use kvmc.P9.{
  Text, Fid, Stat, StatFs, Dirent, SysAnswer, done, failed, Change, mkdir, chmod, mknod, remove,
  rename, symlink, link_to, lchown, truncate, utimensat, Host, P9, Ending, ok, err, fault,
  out_of_fuel, Exec, pure, raise_errno, crash, get_state, ask, call, deref, modify, run_host,
  after_call, continue, ◌>>=◌,
}
use mathlib.Core.Path.{subst}
use kvmc.P9.Paths.Components.{climbs}

-- Empty, or a path behind a slash.
abbrev pub Rooted : Text → Type 0
Rooted [] = Unit
Rooted (c ∷ s) = c ≡ 47

-- Below the root directory: no component of what follows it is "..".
abbrev pub Inside : Text → Text → Type 0
Inside root path = (rest : Text) × (path ≡ root ++ rest) × Rooted rest × (climbs rest ≡ false)

abbrev pub FidInside : Fid → Type 0
FidInside c = Rooted c.path × (climbs c.path ≡ false)

-- The paths that a system call acts on. The target of a symbolic link is only stored.
abbrev pub paths_of : Change → List Text
paths_of (mkdir path mode) = path ∷ []
paths_of (chmod path mode) = path ∷ []
paths_of (mknod path mode major minor) = path ∷ []
paths_of (remove path) = path ∷ []
paths_of (rename old new) = old ∷ new ∷ []
paths_of (symlink target path) = path ∷ []
paths_of (link_to old new) = old ∷ new ∷ []
paths_of (lchown path uid gid) = path ∷ []
paths_of (truncate path size) = path ∷ []
paths_of (utimensat path atime mtime) = path ∷ []

-- What the host keeps as long as every path it is given is below the root directory.
pub record Respects {H : Type 0} (os : Host H) (root : Text) (I : H → Type 0) : Type 0 where
  pub calloc-I : (h : H) → I h → I (os.calloc h).1
  pub change-I : (c : Change) (h : H) → All (Inside root) (paths_of c) → I h → I (os.change c h).1
  pub lstat-I : (p : Text) (h : H) → Inside root p → I h → I (os.lstat p h).1
  pub stat-I : (p : Text) (h : H) → Inside root p → I h → I (os.stat p h).1
  pub statfs-I : (p : Text) (h : H) → Inside root p → I h → I (os.statfs p h).1
  pub readlink-I : (p : Text) (h : H) → Inside root p → I h → I (os.readlink p h).1
  pub opendir-I : (p : Text) (h : H) → Inside root p → I h → I (os.opendir p h).1
  pub open_file-I :
      (p : Text) (flags mode : ℕ) (h : H) → Inside root p → I h → I (os.open_file p flags mode h).1
  pub close-I : (fd : ℕ) (h : H) → I h → I (os.close fd h)
  pub closedir-I : (dir : ℕ) (h : H) → I h → I (os.closedir dir h)
  pub seekdir-I : (dir offset : ℕ) (h : H) → I h → I (os.seekdir dir offset h)
  pub readdir-I : (dir : ℕ) (h : H) → I h → I (os.readdir dir h).1
  pub sync-I : (b : Bool) (fd : ℕ) (h : H) → I h → I (os.sync b fd h).1
  pub preadv-I : (fd size offset : ℕ) (h : H) → I h → I (os.preadv fd size offset h).1
  pub pwritev-I :
      (fd : ℕ) (bytes : List ℕ) (offset : ℕ) (h : H) → I h → I (os.pwritev fd bytes offset h).1

-- The server: its root directory, the fids it has made, and what the host keeps.
pub record IsSafe {H : Type 0} (root : Text) (I : H → Type 0) (s : P9 H) : Type 0 where
  pub same_root : s.root_dir ≡ root
  pub inside : All FidInside s.store
  pub kept : I s.host

abbrev pub OnOk : {A : Type 0} → (A → Type 0) → Ending A → Type 0
OnOk P (ok a) = P a
OnOk P (err e) = Unit
OnOk P fault = Unit
OnOk P out_of_fuel = Unit

abbrev pub Anything : {A : Type 0} → A → Type 0
Anything a = Unit

-- From a safe state the action leaves one, and what it returns has a property.
pub record Keeps {H A : Type 0} (root : Text) (I : H → Type 0) (P : A → Type 0) (m : Exec H A)
    : Type 0 where
  pub at : (s : P9 H) → IsSafe root I s → IsSafe root I (m s).1 × OnOk P (m s).0

module _ {H : Type 0} {root : Text} {I : H → Type 0} where
  module _ {A : Type 0} {P : A → Type 0} where
    pub Keeps-pure : (a : A) → P a → Keeps root I P (pure a)
    unfolding pure
    Keeps-pure a p = record { at = λ s h. (h, p) }

    pub Keeps-raise_errno : (e : ℕ) → Keeps root I P (raise_errno e)
    unfolding raise_errno
    Keeps-raise_errno e = record { at = λ s h. (h, tt) }

    pub Keeps-crash : Keeps root I P crash
    unfolding crash
    Keeps-crash = record { at = λ s h. (h, tt) }

    pub Keeps-stop : Keeps root I P (λ s. (out_of_fuel, s))
    Keeps-stop = record { at = λ s h. (h, tt) }

    pub Keeps-deref : (o : Option A) → ((a : A) → o ≡ some a → P a) → Keeps root I P (deref o)
    unfolding deref
    Keeps-deref none p = Keeps-crash
    Keeps-deref (some a) p = Keeps-pure a (p a refl)

    pub Keeps-if :
        (b : Bool) (m n : Exec H A)
        → (b ≡ true → Keeps root I P m)
        → (b ≡ false → Keeps root I P n)
        → Keeps root I P (if b then m else n)
    Keeps-if true m n km kn = km refl
    Keeps-if false m n km kn = kn refl

  module _ {A : Type 0} where
    pub Keeps-get_state : (f : P9 H → A) → Keeps root I Anything (get_state f)
    unfolding get_state
    Keeps-get_state f = record { at = λ s h. (h, tt) }

    pub Keeps-call :
        (f : H → SysAnswer A × H) → ((h : H) → I h → I (f h).1) → Keeps root I Anything (call f)
    unfolding call
    Keeps-call f k = record {
      at = λ s h. ground (arith, answered_at (f s.host) s h (k s.host h.kept));
    }
      where
        answered_at :
            (r : SysAnswer A × H) (s : P9 H)
            → IsSafe root I s
            → I r.1
            → IsSafe root I (after_call r s).1 × OnOk Anything (after_call r s).0
        answered_at (done a, h) s safe k =
            (record { same_root = safe.same_root; inside = safe.inside; kept = k }, tt)
        answered_at (failed e, h) s safe k =
            (record { same_root = safe.same_root; inside = safe.inside; kept = k }, tt)

    pub Keeps-ask : (f : H → A × H) → ((h : H) → I h → I (f h).1) → Keeps root I Anything (ask f)
    unfolding ask
    Keeps-ask f k = record {
      at = λ s safe. (
        record { same_root = safe.same_root; inside = safe.inside; kept = k s.host safe.kept },
        tt,
      );
    }

  pub Keeps-run_host : (f : H → H) → ((h : H) → I h → I (f h)) → Keeps root I Anything (run_host f)
  unfolding run_host
  Keeps-run_host f k = record {
    at = λ s safe. (
      record { same_root = safe.same_root; inside = safe.inside; kept = k s.host safe.kept },
      tt,
    );
  }

  -- A change of the state that leaves the root, the fids and the host.
  pub Keeps-modify :
      (f : P9 H → P9 H)
      → ((s : P9 H) → (f s).root_dir ≡ s.root_dir)
      → ((s : P9 H) → (f s).store ≡ s.store)
      → ((s : P9 H) → (f s).host ≡ s.host)
      → Keeps root I Anything (modify f)
  unfolding modify
  Keeps-modify f r c k = record {
    at = λ s safe. (
      record {
        same_root = r s ∙ safe.same_root;
        inside = subst (All FidInside) (sym (c s)) safe.inside;
        kept = subst I (sym (k s)) safe.kept;
      },
      tt,
    );
  }

  module _ {A B : Type 0} {P : A → Type 0} {Q : B → Type 0} where
    continued :
        (r : Ending A) (f : A → Exec H B) (s : P9 H)
        → IsSafe root I s
        → OnOk P r
        → ((a : A) → P a → Keeps root I Q (f a))
        → IsSafe root I (continue r f s).1 × OnOk Q (continue r f s).0
    continued (ok a) f s safe p k = (k a p).at s safe
    continued (err e) f s safe p k = (safe, tt)
    continued fault f s safe p k = (safe, tt)
    continued out_of_fuel f s safe p k = (safe, tt)

    pub Keeps-bind :
        (m : Exec H A) (f : A → Exec H B)
        → Keeps root I P m
        → ((a : A) → P a → Keeps root I Q (f a))
        → Keeps root I Q (m >>= f)
    unfolding ◌>>=◌
    Keeps-bind m f km kf = record {
      at = λ s safe.
          let (r, s') = m s in let (safe', p) = km.at s safe in continued r f s' safe' p kf;
    }

  -- A fact that does not depend on the result.
  pub Keeps-always :
      {A F : Type 0} {P : A → Type 0} {m : Exec H A}
      → F
      → Keeps root I P m
      → Keeps root I (λ _. F) m
  Keeps-always {A} {F} {m = m} f k = record {
    at = λ s h. (let (h', p) = k.at s h in (h', always (m s).0));
  }
    where
      always : (r : Ending A) → OnOk (λ _. F) r
      always (ok a) = f
      always (err e) = tt
      always fault = tt
      always out_of_fuel = tt

  -- The rule for a `do` block, for each property that a result is given below.
  module _ {A B : Type 0} {Q : B → Type 0} where
    pub Keeps-then :
        (m : Exec H A) (f : A → Exec H B)
        → Keeps root I Anything m
        → ((a : A) → Keeps root I Q (f a))
        → Keeps root I Q (m >>= f)
    Keeps-then m f km kf = Keeps-bind m f km (λ a _. kf a)

  module _ {B : Type 0} {Q : B → Type 0} where
    pub Keeps-path :
        (m : Exec H Text) (f : Text → Exec H B)
        → Keeps root I (Inside root) m
        → ((path : Text) → Inside root path → Keeps root I Q (f path))
        → Keeps root I Q (m >>= f)
    Keeps-path m f km kf = Keeps-bind m f km kf

    pub Keeps-fid :
        (m : Exec H Fid) (f : Fid → Exec H B)
        → Keeps root I FidInside m
        → ((c : Fid) → FidInside c → Keeps root I Q (f c))
        → Keeps root I Q (m >>= f)
    Keeps-fid m f km kf = Keeps-bind m f km kf

  pub Keeps-any : {A : Type 0} (a : A) → Keeps root I Anything (pure a)
  Keeps-any a = Keeps-pure a tt

pub ruleset keeps_rules = (
  Keeps-then, Keeps-path, Keeps-fid, Keeps-any, Keeps-raise_errno, Keeps-crash, Keeps-get_state,
  Keeps-if,
)
