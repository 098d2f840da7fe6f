-- ===== src/Interval/Spine.antt =====
-- A concrete balance, by rebuilding the tree from its sequence: the laws of `Balance` can be met.
use kvmc.Prelude.{ℕ, ◌<◌, ◌≡◌, refl, List, [], ◌∷◌, ◌++◌, arith, if◌then◌else◌, ◌==◌, ◌&&◌, ◌∙◌, ap}
use mathlib.Core.Path.{subst}
use kvmc.RbTree.{Tree, leaf, node, black, inorder}
use kvmc.Interval.{IntNode, Within, Erasable, IntBalance, u64_max}
use kvmc.Interval.Order.{Within-split, Within-le}

module _ {V : Type 0} where
  abbrev spine : List (IntNode V) → Tree (IntNode V)
  spine [] = leaf
  spine (x ∷ xs) = node black leaf x (spine xs)

  inorder-spine : (xs : List (IntNode V)) → inorder (spine xs) ≡ xs
  inorder-spine [] = refl
  inorder-spine (x ∷ xs) = rw (inorder-spine xs)

  -- Removes the first node with the bounds of `x`.
  abbrev remove : IntNode V → List (IntNode V) → List (IntNode V)
  remove x [] = []
  remove x (y ∷ ys) = if y.low == x.low && y.high == x.high then ys else y ∷ remove x ys

  remove-split :
      (x : IntNode V) (lo hi : ℕ) (xs ys : List (IntNode V))
      → x.low < x.high
      → Within lo hi (xs ++ (x ∷ ys))
      → remove x (xs ++ (x ∷ ys)) ≡ xs ++ ys
  remove-split x lo hi [] ys h w = ground arith
  remove-split x lo hi (z ∷ zs) ys h w = ground (
    arith,
    Within-split lo hi (z ∷ zs) x ys w,
    Within-split z.high hi zs x ys w.2,
    Within-le z.high x.low zs (Within-split z.high hi zs x ys w.2).0,
    remove-split x z.high hi zs ys h w.2,
  )

  pub inorder-spine-remove :
      (x : IntNode V) (t : Tree (IntNode V)) (xs ys : List (IntNode V))
      → inorder t ≡ xs ++ (x ∷ ys)
      → Erasable x (inorder t)
      → inorder (spine (remove x (inorder t))) ≡ xs ++ ys
  inorder-spine-remove x t xs ys e h =
      inorder-spine (remove x (inorder t))
      ∙ ap (remove x) e
      ∙ remove-split x 0 u64_max xs ys h.0 (subst (Within 0 u64_max) e h.1)

abbrev pub spine_balance : {V : Type 0} → IntBalance V
spine_balance = record {
  insert_color = λ x t. t;
  erase = λ x t. spine (remove x (inorder t));
  inorder-insert_color = λ x t. refl;
  inorder-erase = inorder-spine-remove;
}
