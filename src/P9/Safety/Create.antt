-- ===== src/P9/Safety/Create.antt =====
-- The name that `virtio_p9_create` puts behind the path of a directory.
use kvmc.Prelude.{
  Bool, true, ℕ, ◌-◌, ◌≡◌, refl, sym, ap, ◌∙◌, ◌∷◌, ◌++◌, false, Option, none, some, arith, leb,
  get_elem?, set, length, length-append, append_assoc,
}
use kvmc.P9.{
  Text, Fid, P9, Ending, ok, err, fault, pure, raise_errno, crash, get_state, deref, modify, ◌>>=◌,
}
use kvmc.P9.Paths.{FullPath, full, refused, get_full_path_helper, path_max}
use kvmc.P9.Fids.{load_fid, update_fid, abs_path}
use kvmc.P9.Replies.{get_full_path}
use kvmc.P9.Files.{own, extend_path, name_in}
use kvmc.P9.Paths.Components.{climbs, climbs-append}
use kvmc.P9.Safety.{Rooted, Inside, FidInside, IsSafe, OnOk, Keeps}
use kvmc.P9.Safety.Session.{All-get, All-set, full-climbs, Rooted-slash}

-- What `name_in` does for the fid `c`, by the test of the full path.
abbrev pub named : {H : Type 0} → Bool → ℕ → Text → Fid → P9 H → FullPath → Ending Text × P9 H
named keeps p name c s (refused e) = (err e, s)
named keeps p name c s (full path) = (
  ok path,
  record s { store = set s.store p (record c { path = own keeps c.path ++ (47 ∷ name) }) },
)

full-fits :
    (keeps : Bool) (root path name whole : Text)
    → get_full_path_helper (root ++ path) name ≡ full whole
    → leb (path_max - length root) (length (own keeps path ++ (47 ∷ name))) ≡ false
unfolding get_full_path_helper
full-fits false root path name whole e =
    ground (arith, length-append (root ++ path) (47 ∷ name), length-append root path)
full-fits true root path name whole e = ground (
  arith,
  length-append (root ++ path) (47 ∷ name),
  length-append root path,
  length-append path (47 ∷ name),
)

-- The byte behind the array is never written: a name whose full path is accepted fits into the fid,
-- behind the path that `snprintf` has left of the fid's own.
pub name_in_lem :
    {H : Type 0} (keeps : Bool) (p : ℕ) (name : Text) (c : Fid) (s : P9 H)
    → get_elem? s.store p ≡ some c
    → name_in keeps p name s
      ≡ named keeps p name c s (get_full_path_helper (s.root_dir ++ c.path) name)
unfolding name_in get_full_path abs_path load_fid extend_path update_fid get_state deref modify pure
    raise_errno ◌>>=◌
name_in_lem keeps p name c s e = tested (get_full_path_helper (s.root_dir ++ c.path) name) refl
  where
    tested :
        (f : FullPath)
        → get_full_path_helper (s.root_dir ++ c.path) name ≡ f
        → name_in keeps p name s ≡ named keeps p name c s f
    tested (full path) w = ground (arith, e, full-fits keeps s.root_dir c.path name path w)
    tested (refused n) w = ground (arith, e)

-- Without a fid behind the pointer.
name_in-none :
    {H : Type 0} (keeps : Bool) (p : ℕ) (name : Text) (s : P9 H)
    → get_elem? s.store p ≡ none
    → name_in keeps p name s ≡ (fault, s)
unfolding name_in get_full_path abs_path load_fid get_state deref crash ◌>>=◌
name_in-none keeps p name s e = ground (arith, e)

Rooted-own :
    (keeps : Bool) (path name : Text) → Rooted path → Rooted (own keeps path ++ (47 ∷ name))
Rooted-own true path name r = Rooted-slash path name r
Rooted-own false path name r = refl

own-climbs :
    (keeps : Bool) (root path name : Text)
    → climbs (root ++ (path ++ (47 ∷ name))) ≡ false
    → climbs (own keeps path ++ (47 ∷ name)) ≡ false
own-climbs true root path name h = climbs-append root (path ++ (47 ∷ name)) h
own-climbs false root path name h =
    climbs-append path (47 ∷ name) (climbs-append root (path ++ (47 ∷ name)) h)

module _ {H : Type 0} {root : Text} {I : H → Type 0} where
  named-IsSafe :
      (keeps : Bool) (p : ℕ) (name : Text) (c : Fid) (s : P9 H)
      → IsSafe root I s
      → FidInside c
      → (f : FullPath) → get_full_path_helper (s.root_dir ++ c.path) name ≡ f
      → IsSafe root I (named keeps p name c s f).1 × OnOk (Inside root) (named keeps p name c s f).0
  named-IsSafe keeps p name c s h i (refused e) w = (h, tt)
  named-IsSafe keeps p name c s h i (full path) w =
      let (whole, flat) = full-climbs (s.root_dir ++ c.path) name path w in
      let split : path ≡ s.root_dir ++ (c.path ++ (47 ∷ name)) =
        whole ∙ append_assoc s.root_dir c.path (47 ∷ name) in
      let level : climbs (s.root_dir ++ (c.path ++ (47 ∷ name))) ≡ false =
        ap climbs (sym split) ∙ flat in
      (
        record {
          same_root = h.same_root;
          inside =
              All-set FidInside s.store p _ h.inside
                (Rooted-own keeps c.path name i.0, own-climbs keeps s.root_dir c.path name level);
          kept = h.kept;
        },
        (
          c.path ++ (47 ∷ name),
          split ∙ ap (λ r. r ++ (c.path ++ (47 ∷ name))) h.same_root,
          Rooted-slash c.path name i.0,
          climbs-append s.root_dir (c.path ++ (47 ∷ name)) level,
        ),
      )

  pub Keeps-name_in :
      (keeps : Bool) (p : ℕ) (name : Text) → Keeps root I (Inside root) (name_in keeps p name)
  Keeps-name_in keeps p name = record { at = λ s h. found s h (get_elem? s.store p) refl }
    where
      found :
          (s : P9 H)
          → IsSafe root I s
          → (o : Option Fid) → get_elem? s.store p ≡ o
          → IsSafe root I (name_in keeps p name s).1 × OnOk (Inside root) (name_in keeps p name s).0
      found s h none e = rw (name_in-none keeps p name s e) (h, tt)
      found s h (some c) e =
          rw (name_in_lem keeps p name c s e)
            (named-IsSafe keeps p name c s h (All-get FidInside s.store p c h.inside e) _ refl)
