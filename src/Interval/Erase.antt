-- ===== src/Interval/Erase.antt =====
-- `rb_int_erase` of a node that a search has found, and `rb_int_search_range`.
use mathlib.Core.Path.{subst}
use kvmc.Prelude.{
  ℕ, ◌-◌, ◌<◌, ◌≤◌, ◌≡◌, ◌↔◌, inl, inr, List, [], ◌∷◌, ◌++◌, none, some, arith, ap, sym, ◌∙◌,
  if◌then◌else◌, Bool-cases, true,
}
use kvmc.RbTree.{Tree, inorder}
use kvmc.Interval.{
  IntNode, Within, IsOrdered, search_single, search_range, contains, u64_max, int_erase, IntBalance,
}
use kvmc.Interval.Order.{Within-split, Within-widen, find, find_below, find_above, find-append}
use kvmc.Interval.Search.{search_single-find}

module _ {V : Type 0} where
  -- A node that the scan answers stands in the sequence and contains the point.
  record Found (p : ℕ) (x : IntNode V) (xs : List (IntNode V)) : Type 0 where
    before : List (IntNode V)
    after : List (IntNode V)
    split : xs ≡ before ++ (x ∷ after)
    inside : contains x p ≡ true

  find-Found : (p : ℕ) (x : IntNode V) (xs : List (IntNode V)) → find p xs ≡ some x → Found p x xs
  unfolding find
  find-Found p x [] e = ground arith
  find-Found p x (y ∷ ys) e = elim (Bool-cases (contains y p)) [
    | inl hit ↦
        let q : y ≡ x = ground (arith, hit) in
        record {
          before = [];
          after = ys;
          split = ap (λ z. z ∷ ys) q;
          inside = subst (λ z. contains z p ≡ true) q hit;
        }
    | inr miss ↦
        let k = find-Found p x ys (ground (arith, miss)) in
        record {
          before = y ∷ k.before;
          after = k.after;
          split = ap (λ zs. y ∷ zs) k.split;
          inside = k.inside;
        }
  ]

  Within-append :
      (lo m n hi : ℕ) (xs ys : List (IntNode V))
      → Within lo m xs
      → m ≤ n
      → Within n hi ys
      → Within lo hi (xs ++ ys)
  Within-append lo m n hi [] ys a h d = Within-widen n lo hi ys (omega arith) d
  Within-append lo m n hi (x ∷ xs) ys a h d = (a.0, a.1, Within-append x.high m n hi xs ys a.2 h d)

  find-remove :
      (xs : List (IntNode V)) (x : IntNode V) (ys : List (IntNode V)) (q : ℕ)
      → Within 0 u64_max (xs ++ (x ∷ ys))
      → find q (xs ++ ys) ≡ (if contains x q then none else find q (xs ++ (x ∷ ys)))
  unfolding find
  find-remove xs x ys q w =
      let (a, b, d) = Within-split 0 u64_max xs x ys w in
      ground (
        arith,
        find-append q xs ys,
        find-append q xs (x ∷ ys),
        find_above q 0 x.low xs a,
        find_below q x.high u64_max ys d,
      )

module _ {V : Type 0} (b : IntBalance V) where
  open b use {erase, inorder-erase}

  -- If a search for `p` answers a node of an ordered tree, erasing that node keeps the tree
  -- ordered, and afterwards a search answers nothing inside the node's interval and what it
  -- answered before everywhere else.
  pub erase-search :
      (t : Tree (IntNode V)) (p : ℕ) (x : IntNode V)
      → IsOrdered t
      → search_single t p ≡ some x
      → IsOrdered (int_erase b t x)
        × ((q : ℕ)
            → search_single (int_erase b t x) q
              ≡ (if contains x q then none else search_single t q))
  unfolding int_erase
  erase-search t p x w e = (
    o,
    λ q.
        search_single-find (erase x t) 0 u64_max q o
        ∙ ap (find q) gone
        ∙ find-remove k.before x k.after q w'
        ∙ ap (λ z. if contains x q then none else z)
            (ap (find q) (sym k.split) ∙ sym (search_single-find t 0 u64_max q w)),
  )
    where
      k : Found p x (inorder t)
      k = find-Found p x (inorder t) (sym (search_single-find t 0 u64_max p w) ∙ e)

      w' : Within 0 u64_max (k.before ++ (x ∷ k.after))
      w' = subst (Within 0 u64_max) k.split w

      gone : inorder (erase x t) ≡ k.before ++ k.after
      gone = inorder-erase x t k.before k.after k.split (ground (arith, k.inside), w)

      o : IsOrdered (erase x t)
      o = rw gone (
          let (a, m, d) = Within-split 0 u64_max k.before x k.after w' in
          Within-append 0 x.low x.high u64_max k.before k.after a m d)

module _ {V : Type 0} where
  find-hit :
      (xs : List (IntNode V)) (x : IntNode V) (ys : List (IntNode V)) (q : ℕ)
      → Within 0 u64_max (xs ++ (x ∷ ys))
      → contains x q ≡ true
      → find q (xs ++ (x ∷ ys)) ≡ some x
  unfolding find
  find-hit xs x ys q w h =
      let (a, b, d) = Within-split 0 u64_max xs x ys w in
      ground (arith, find-append q xs (x ∷ ys), find_above q 0 x.low xs a)

  -- A node that a search answers contains the point, and is answered at each of its points.
  pub search_single-hit :
      (t : Tree (IntNode V)) (p q : ℕ) (x : IntNode V)
      → IsOrdered t
      → search_single t p ≡ some x
      → (contains x p ≡ true) × (contains x q ≡ true → search_single t q ≡ some x)
  search_single-hit t p q x w e = (
    k.inside,
    λ h.
        search_single-find t 0 u64_max q w
        ∙ ap (find q) k.split
        ∙ find-hit k.before x k.after q (subst (Within 0 u64_max) k.split w) h,
  )
    where
      k : Found p x (inorder t)
      k = find-Found p x (inorder t) (sym (search_single-find t 0 u64_max p w) ∙ e)

  -- On an ordered tree and for `low < high`, `rb_int_search_range` answers a node exactly if
  -- searches for the first and for the last address of `[low, high)` both answer that node.
  search_range_iff :
      (t : Tree (IntNode V)) (low high : ℕ) (x : IntNode V)
      → IsOrdered t
      → low < high
      → (search_range t low high ≡ some x)
        ↔ ((search_single t low ≡ some x) × (search_single t (high - 1) ≡ some x))
  unfolding search_range
  search_range_iff t low high x w lt = (
    λ e.
        let hit : search_single t low ≡ some x = ground arith in
        ground (arith, hit, search_single-hit t low (high - 1) x w hit),
    λ h. let end = search_single-hit t (high - 1) low x w h.1 in ground (arith, h.0, end.0),
  )

  -- If `rb_int_search_range` answers a node of an ordered tree for `[low, high)`, a search for any
  -- address of the range answers that node.
  search_range_sound :
      (t : Tree (IntNode V)) (low high q : ℕ) (x : IntNode V)
      → IsOrdered t
      → search_range t low high ≡ some x
      → low ≤ q
      → q < high
      → search_single t q ≡ some x
  unfolding search_range
  search_range_sound t low high q x w e h1 h2 =
      let hit : search_single t low ≡ some x = ground arith in
      ground (arith, hit, search_single-hit t low q x w hit)
