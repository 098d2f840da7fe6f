-- ===== src/Interval.antt =====
-- util/rbtree-interval.c: a red-black tree of disjoint half-open intervals. A node carries its
-- bounds and a payload, the structure that the C code embeds the node in.
pub mod Order
pub mod Search
pub mod Insert
pub mod Erase
pub mod Spine
mod Tests
use kvmc.Prelude.{
  ℕ, ◌-◌, ◌^◌, ◌≤◌, ◌<◌, List, [], ◌∷◌, Bool, Option, none, some, ltb, leb, if◌then◌else◌, ◌&&◌,
}
use kvmc.RbTree.{inorder, Tree, leaf, node, Color, red, Balance}

-- `struct rb_int_node` with the structure around it.
pub record IntNode (V : Type 0) : Type 0 where
  pub low : ℕ
  pub high : ℕ
  pub payload : V

-- `point` lies in the interval.
abbrev pub contains : {V : Type 0} → IntNode V → ℕ → Bool
contains x point = leb x.low point && ltb point x.high

module _ {V : Type 0} where
  -- `rb_int_search_single`
  unfoldable pub search_single : Tree (IntNode V) → ℕ → Option (IntNode V)
  search_single leaf point = none
  search_single (node c l x r) point =
      let left = search_single l point in
      let right = search_single r point in
      if ltb point x.low then left else if leb x.high point then right else some x

  -- `rb_int_search_range`
  unfoldable pub search_range : Tree (IntNode V) → ℕ → ℕ → Option (IntNode V)
  search_range t low high = elim (search_single t low) [
    | none ↦ none
    | some range ↦ if ltb range.high high then none else some range
  ]

  link_left :
      Color → IntNode V → Tree (IntNode V) → Option (Tree (IntNode V)) → Option (Tree (IntNode V))
  link_left c y r none = none
  link_left c y r (some l) = some (node c l y r)

  link_right :
      Color → Tree (IntNode V) → IntNode V → Option (Tree (IntNode V)) → Option (Tree (IntNode V))
  link_right c l y none = none
  link_right c l y (some r) = some (node c l y r)

  -- The descent of `rb_int_insert` with `rb_link_node` at its end; `none` is -EEXIST.
  unfoldable pub link : Tree (IntNode V) → IntNode V → Option (Tree (IntNode V))
  unfolding link_left link_right
  link leaf x = some (node red leaf x leaf)
  link (node c l y r) x =
      let left = link_left c y r (link l x) in
      let right = link_right c l y (link r x) in
      if leb x.high y.low then left else if leb y.high x.low then right else none

-- Nodes in address order: each interval ends where the next begins, or before.
abbrev pub Within : {V : Type 0} → ℕ → ℕ → List (IntNode V) → Type 0
Within lo hi [] = lo ≤ hi
Within lo hi (x ∷ xs) = (lo ≤ x.low) × (x.low ≤ x.high) × Within x.high hi xs

-- The largest value of a u64.
abbrev pub u64_max : ℕ
u64_max = 2 ^ 64 - 1

-- The tree's invariant: sorted, disjoint, and within the 64-bit address space.
abbrev pub IsOrdered : {V : Type 0} → Tree (IntNode V) → Type 0
IsOrdered t = Within 0 u64_max (inorder t)

-- A node that covers some address is the only one of an ordered tree with its bounds.
abbrev pub Erasable : {V : Type 0} → IntNode V → List (IntNode V) → Type 0
Erasable x xs = (x.low < x.high) × Within 0 u64_max xs

abbrev pub IntBalance : Type 0 → Type 0
IntBalance V = Balance (IntNode V) Erasable

module _ {V : Type 0} (b : IntBalance V) where
  open b use {insert_color, erase}

  -- `rb_int_insert`; `none` is -EEXIST.
  unfoldable pub insert : Tree (IntNode V) → IntNode V → Option (Tree (IntNode V))
  insert t x = elim (link t x) [ none ↦ none | some t' ↦ some (insert_color x t') ]

  -- `rb_int_erase`
  pub int_erase : Tree (IntNode V) → IntNode V → Tree (IntNode V)
  int_erase t x = erase x t
