-- ===== src/P9/Fids/Spine.antt =====
-- A concrete balance for the tree of fids: the laws of `FidBalance` can be met.
use kvmc.Prelude.{ℕ, suc, ◌≤◌, ◌≡◌, refl, ap, ◌∙◌, List, [], ◌∷◌, ◌++◌, arith, ◌==◌, if◌then◌else◌}
use mathlib.Core.Path.{subst}
use kvmc.RbTree.{Tree, leaf, node, black, inorder}
use kvmc.P9.{Node}
use kvmc.P9.Fids.{FidBalance, Ascends, Erasable}

abbrev line : List Node → Tree Node
line [] = leaf
line (x ∷ xs) = node black leaf x (line xs)

inorder-line : (xs : List Node) → inorder (line xs) ≡ xs
inorder-line [] = refl
inorder-line (x ∷ xs) = rw (inorder-line xs) refl

-- The sequence without the first node of a number.
abbrev without : ℕ → List Node → List Node
without k [] = []
without k (y ∷ ys) = let rest = without k ys in if y.key == k then ys else y ∷ rest

without-split :
    (x : Node) (lo : ℕ) (xs ys : List Node)
    → Ascends lo (xs ++ (x ∷ ys))
    → (lo ≤ x.key) × (without x.key (xs ++ (x ∷ ys)) ≡ xs ++ ys)
without-split x lo [] ys h = (h.0, ground arith)
without-split x lo (z ∷ zs) ys h =
    let (above, rest) = without-split x (suc z.key) zs ys h.1 in
    (omega (arith, h.0), ground (arith, rest))

pub inorder-line-without :
    (x : Node) (t : Tree Node) (xs ys : List Node)
    → inorder t ≡ xs ++ (x ∷ ys)
    → Erasable x (inorder t)
    → inorder (line (without x.key (inorder t))) ≡ xs ++ ys
inorder-line-without x t xs ys e h =
    inorder-line (without x.key (inorder t))
    ∙ ap (without x.key) e
    ∙ (without-split x 0 xs ys (subst (Ascends 0) e h)).1

abbrev pub line_balance : FidBalance
line_balance = record {
  insert_color = λ x t. t;
  erase = λ x t. line (without x.key (inorder t));
  inorder-insert_color = λ x t. refl;
  inorder-erase = inorder-line-without;
}
