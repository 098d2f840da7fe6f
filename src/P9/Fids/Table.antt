-- ===== src/P9/Fids/Table.antt =====
-- The tree of fids as a map from numbers to pointers.
use kvmc.Prelude.{
  ℕ, suc, ◌^◌, ◌≤◌, ◌<◌, ◌≡◌, refl, List, [], ◌∷◌, ◌++◌, Option, none, some, arith, ◌==◌,
  if◌then◌else◌,
}
use kvmc.RbTree.{Tree, leaf, node, inorder}
use kvmc.P9.{Node}
use kvmc.P9.Fids.{search_fid, Ascends}

-- The pointer that a list of nodes has for a number.
abbrev pub lookup : List Node → ℕ → Option ℕ
lookup [] fid = none
lookup (x ∷ xs) fid = if x.key == fid then some x.at else lookup xs fid

-- Numbers below a bound.
abbrev pub Below : ℕ → List Node → Type 0
Below hi [] = Unit
Below hi (x ∷ xs) = (x.key < hi) × Below hi xs

pub Ascends-le : (a b : ℕ) (xs : List Node) → a ≤ b → Ascends b xs → Ascends a xs
Ascends-le a b [] h s = tt
Ascends-le a b (x ∷ xs) h s = (omega arith, s.1)

pub Ascends-split :
    (lo : ℕ) (xs : List Node) (y : Node) (ys : List Node)
    → Ascends lo (xs ++ (y ∷ ys))
    → Ascends lo xs × Below y.key xs × (lo ≤ y.key) × Ascends (suc y.key) ys
Ascends-split lo [] y ys s = (tt, tt, s.0, s.1)
Ascends-split lo (x ∷ xs) y ys s =
    let (a, b, c, d) = Ascends-split (suc x.key) xs y ys s.1 in
    ((s.0, a), (omega arith, b), omega arith, d)

pub lookup-below :
    (lo : ℕ) (xs : List Node) (fid : ℕ) → Ascends lo xs → fid < lo → lookup xs fid ≡ none
lookup-below lo [] fid s h = refl
lookup-below lo (x ∷ xs) fid s h = ground (arith, lookup-below (suc x.key) xs fid s.1 (omega arith))

pub lookup-above :
    (hi : ℕ) (xs : List Node) (fid : ℕ) → Below hi xs → hi ≤ fid → lookup xs fid ≡ none
lookup-above hi [] fid s h = refl
lookup-above hi (x ∷ xs) fid s h = ground (arith, lookup-above hi xs fid s.1 h)

pub lookup-append :
    (xs : List Node) (y : Node) (ys : List Node) (fid : ℕ)
    → lookup (xs ++ (y ∷ ys)) fid
      ≡ (elim (lookup xs fid) [ none ↦ lookup (y ∷ ys) fid | some p ↦ some p ])
lookup-append [] y ys fid = refl
lookup-append (x ∷ xs) y ys fid = ground (arith, lookup-append xs y ys fid)

-- In an ordered tree the search finds what the sequence of its nodes has.
pub search_fid-lookup :
    (t : Tree Node) (lo fid : ℕ)
    → Ascends lo (inorder t)
    → search_fid t fid ≡ lookup (inorder t) fid
unfolding search_fid
search_fid-lookup leaf lo fid s = refl
search_fid-lookup (node c l x r) lo fid s =
    let (left, under, at, right) = Ascends-split lo (inorder l) x (inorder r) s in
    ground (
      arith,
      search_fid-lookup l lo fid left,
      search_fid-lookup r (suc x.key) fid right,
      lookup-append (inorder l) x (inorder r) fid,
      lookup-above x.key (inorder l) fid under,
      lookup-below (suc x.key) (inorder r) fid right,
    )

-- The table: numbers in order, each below 2 ^ 31.
pub record IsTable (t : Tree Node) : Type 0 where
  pub ordered : Ascends 0 (inorder t)
  pub small : Below (2 ^ 31) (inorder t)
