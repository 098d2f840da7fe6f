-- ===== src/RbTree.antt =====
-- The trees of include/linux/rbtree.h as the clients in util/rbtree-interval.c, hw/ioport.c,
-- hw/mmio.c and src/devices.c see them. The balancing of util/rbtree.c, a copy of the Linux
-- kernel's library, enters as the record `Balance`: its operations, and what they do to the
-- in-order sequence of the items, which is what the clients rely on.
use kvmc.Prelude.{List, [], ◌∷◌, ◌++◌, ◌≡◌, Option, none, some}

-- The colour in `rb_parent_color`; a freshly linked node is red.
pub data Color : Type 0 where
  red black : Color

pub data Tree {ℓ} (A : Type ℓ) : Type ℓ where
  leaf : Tree A
  node : Color → Tree A → A → Tree A → Tree A

abbrev pub inorder {ℓ} : {A : Type ℓ} → Tree A → List A
inorder leaf = []
inorder (node c l x r) = inorder l ++ (x ∷ inorder r)

-- `rb_first`: the leftmost item.
pub first {ℓ} : {A : Type ℓ} → Tree A → Option A
first leaf = none
first (node c l x r) = elim (first l) [ none ↦ some x | some y ↦ some y ]

-- `rb_insert_color` and `rb_erase`, with the node that they are called on. `Erasable x xs` is what
-- makes the node `x` the only item of `xs` that the pointer can mean.
pub record Balance {ℓ κ} (A : Type ℓ) (Erasable : A → List A → Type κ) : Type (ℓ ⊔ κ) where
  pub insert_color : A → Tree A → Tree A
  pub erase : A → Tree A → Tree A
  pub inorder-insert_color : (x : A) (t : Tree A) → inorder (insert_color x t) ≡ inorder t
  pub inorder-erase :
      (x : A) (t : Tree A) (xs ys : List A)
      → inorder t ≡ xs ++ (x ∷ ys)
      → Erasable x (inorder t)
      → inorder (erase x t) ≡ xs ++ ys
