-- ===== src/P9/Names/Rename.antt =====
-- What `rename_fids` does to the paths of the other fids.
use kvmc.Prelude.{
  ℕ, zero, suc, ◌+◌, ◌<◌, ◌≡◌, ◌≢◌, refl, ap, List, [], ◌∷◌, ◌++◌, true, false, Option, none, some,
  arith, length, drop, get_elem?, set, length-append, append-nil,
}
use mathlib.Core.Path.{subst}
use kvmc.RbTree.{inorder}
use kvmc.P9.{Text, Fid, Node, P9, ok, modify}
use kvmc.P9.Paths.{path_max, starts_with, virtio_p9_ancestor}
use kvmc.P9.Safety.{Rooted, FidInside, IsSafe}
use kvmc.P9.Safety.Session.{All-get}
use kvmc.P9.Names.{virtio_p9_fix_path, no_fid, renamed, rename_each, changed_at, rename_fids}

-- A name that does not start with a slash begins no path.
ancestor-relative :
    (path : Text) (c : ℕ) (old : Text)
    → Rooted path
    → c ≢ 47
    → virtio_p9_ancestor path (c ∷ old) ≡ false
unfolding virtio_p9_ancestor
ancestor-relative [] c old h n = refl
ancestor-relative (x ∷ path) c old h n = ground (arith, n)

renamed-relative :
    (root : Text) (c : ℕ) (old new : Text) (x : Fid)
    → Rooted x.path
    → c ≢ 47
    → renamed root (c ∷ old) new x ≡ x
unfolding renamed
renamed-relative root c old new x h n = ground (arith, ancestor-relative x.path c old h n)

set-same : {A : Type 0} (xs : List A) (i : ℕ) (x : A) → get_elem? xs i ≡ some x → set xs i x ≡ xs
set-same [] i x e = refl
set-same (y ∷ xs) zero x e = cc
set-same (y ∷ xs) (suc i) x e = ap (λ t. y ∷ t) (set-same xs i x e)

module _ (f : Fid → Fid) where
  rename_each-same :
      (xs : List Node) (store : List Fid)
      → ((p : ℕ) (c : Fid) → get_elem? store p ≡ some c → f c ≡ c)
      → rename_each f xs store ≡ store
  unfolding rename_each
  rename_each-same [] store h = refl
  rename_each-same (x ∷ xs) store h =
      let kept = unchanged (get_elem? store x.at) refl in rw kept (rename_each-same xs store h)
    where
      unchanged : (o : Option Fid) → get_elem? store x.at ≡ o → changed_at f x.at store o ≡ store
      unchanged none e = refl
      unchanged (some c) e = rw (h x.at c e) (set-same store x.at c e)

-- In a state whose fids are below the root directory (each path is empty or starts with a slash), a
-- rename of an entry whose name is not empty and does not start with a slash changes no fid: the
-- name is compared with paths that start with one.
pub rename_fids-relative :
    {H : Type 0} {root : Text} {I : H → Type 0} (s : P9 H) (c : ℕ) (old new : Text)
    → IsSafe root I s
    → c ≢ 47
    → rename_fids (c ∷ old) new s ≡ (ok tt, s)
unfolding rename_fids modify
rename_fids-relative s c old new h n =
    rw
      (rename_each-same (renamed s.root_dir (c ∷ old) new) (inorder s.fids) s.store (λ p x e.
        renamed-relative s.root_dir c old new x (All-get FidInside s.store p x h.inside e).0 n))
      refl

starts_with-append : (old rest : Text) → starts_with old (old ++ rest) ≡ true
starts_with-append [] rest = refl
starts_with-append (c ∷ old) rest = ground (arith, starts_with-append old rest)

drop-length : (old rest : Text) → drop (length old) (old ++ rest) ≡ rest
drop-length [] rest = refl
drop-length (c ∷ old) rest = drop-length old rest

-- A fid that stands for the old name, or for a path below it, gets the new name in its place, if the
-- new path fits in behind the root directory.
pub renamed_lem :
    (root old new rest : Text) (x : Fid)
    → x.path ≡ old ++ rest
    → Rooted rest
    → x.fid ≢ no_fid
    → length root + length (new ++ rest) < path_max
    → renamed root old new x ≡ record x { path = new ++ rest }
unfolding renamed virtio_p9_ancestor virtio_p9_fix_path
renamed_lem root old new [] x e r n fits = ground (
  arith,
  starts_with-append old [],
  drop-length old [],
  length-append old [],
  append-nil old,
  append-nil new,
  ap length e,
)
renamed_lem root old new (c ∷ rest) x e r n fits = ground (
  arith,
  starts_with-append old (c ∷ rest),
  drop-length old (c ∷ rest),
  length-append old (c ∷ rest),
  length-append new (c ∷ rest),
)

-- With an empty old name, a fid whose number is not P9_NOFID and whose path is empty or starts with a
-- slash is renamed, if its path with the new name in front fits behind the root directory's: where
-- the new name is not empty and does not start with a slash, the fid's path then is not one below
-- the root directory.
pub renamed-escapes :
    (root : Text) (c : ℕ) (new : Text) (x : Fid)
    → Rooted x.path
    → x.fid ≢ no_fid
    → c ≢ 47
    → length root + length ((c ∷ new) ++ x.path) < path_max
    → ¬ FidInside (renamed root [] (c ∷ new) x)
renamed-escapes root c new x r n other fits inside =
    other
      (subst (λ y. Rooted y.path) (renamed_lem root [] (c ∷ new) x.path x refl r n fits) inside.0)
