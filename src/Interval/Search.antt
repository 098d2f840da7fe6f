-- ===== src/Interval/Search.antt =====
-- The searches of util/rbtree-interval.c against a linear scan of the nodes.
use kvmc.Prelude.{ℕ, ◌≡◌, refl, ◌∷◌, arith}
use kvmc.RbTree.{Tree, leaf, node, inorder}
use kvmc.Interval.{IntNode, Within, search_single}
use kvmc.Interval.Order.{Within-split, find, find_below, find_above, find-append}

module _ {V : Type 0} where
  pub search_single-find :
      (t : Tree (IntNode V)) (lo hi p : ℕ)
      → Within lo hi (inorder t)
      → search_single t p ≡ find p (inorder t)
  unfolding search_single find
  search_single-find leaf lo hi p w = refl
  search_single-find (node c l x r) lo hi p w =
      let (a, b, d) = Within-split lo hi (inorder l) x (inorder r) w in
      ground (
        arith,
        find-append p (inorder l) (x ∷ inorder r),
        search_single-find l lo x.low p a,
        search_single-find r x.high hi p d,
        find_above p lo x.low (inorder l) a,
        find_below p x.high hi (inorder r) d,
      )
