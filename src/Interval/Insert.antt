-- ===== src/Interval/Insert.antt =====
-- `rb_int_insert`: when it refuses, and what the tree answers afterwards.
use kvmc.Prelude.{
  ℕ, ◌≤◌, ◌≡◌, refl, ◌↔◌, inl, inr, List, [], ◌∷◌, ◌++◌, Option, none, some, arith, if◌then◌else◌,
  ltb, sym, ap, ◌∙◌, Bool, true, false, ◌&&◌, ◌||◌, Option-cases,
}
use mathlib.Core.Path.{subst}
use native.Mathlib.Decide.{dec_le}
use kvmc.RbTree.{Color, red, Tree, leaf, node, inorder}
use kvmc.Interval.{
  IntNode, Within, IsOrdered, search_single, contains, u64_max, link, link_left, link_right, insert,
  IntBalance,
}
use kvmc.Interval.Order.{Within-split, Within-join, Within-le, find, find_above, find-append}
use kvmc.Interval.Search.{search_single-find}

-- The two intervals share an address, or one is empty and lies inside the other.
abbrev pub overlaps : {V : Type 0} → IntNode V → IntNode V → Bool
overlaps x y = ltb y.low x.high && ltb x.low y.high

module _ {V : Type 0} where
  pub any_overlap : IntNode V → List (IntNode V) → Bool
  any_overlap x [] = false
  any_overlap x (y ∷ ys) = overlaps x y || any_overlap x ys

  abbrev pub is_none : Option (Tree (IntNode V)) → Bool
  is_none none = true
  is_none (some t) = false

  any_overlap-append :
      (x : IntNode V) (ys zs : List (IntNode V))
      → any_overlap x (ys ++ zs) ≡ (any_overlap x ys || any_overlap x zs)
  unfolding any_overlap
  any_overlap-append x [] zs = refl
  any_overlap-append x (y ∷ ys) zs = ground (arith, any_overlap-append x ys zs)

  any_overlap_below :
      (x : IntNode V) (lo hi : ℕ) (ys : List (IntNode V))
      → Within lo hi ys
      → hi ≤ x.low
      → any_overlap x ys ≡ false
  unfolding any_overlap
  any_overlap_below x lo hi [] w h = refl
  any_overlap_below x lo hi (y ∷ ys) w h =
      ground (arith, Within-le y.high hi ys w.2, any_overlap_below x y.high hi ys w.2)

  any_overlap_above :
      (x : IntNode V) (lo hi : ℕ) (ys : List (IntNode V))
      → Within lo hi ys
      → x.high ≤ lo
      → any_overlap x ys ≡ false
  unfolding any_overlap
  any_overlap_above x lo hi [] w h = refl
  any_overlap_above x lo hi (y ∷ ys) w h = ground (arith, any_overlap_above x y.high hi ys w.2)

  is_none-link_left :
      (c : Color) (y : IntNode V) (r : Tree (IntNode V)) (o : Option (Tree (IntNode V)))
      → is_none (link_left c y r o) ≡ is_none o
  unfolding link_left
  is_none-link_left c y r none = refl
  is_none-link_left c y r (some l) = refl

  is_none-link_right :
      (c : Color) (l : Tree (IntNode V)) (y : IntNode V) (o : Option (Tree (IntNode V)))
      → is_none (link_right c l y o) ≡ is_none o
  unfolding link_right
  is_none-link_right c l y none = refl
  is_none-link_right c l y (some r) = refl

  is_none-link :
      (t : Tree (IntNode V)) (x : IntNode V) (lo hi : ℕ)
      → Within lo hi (inorder t)
      → is_none (link t x) ≡ any_overlap x (inorder t)
  unfolding any_overlap link
  is_none-link leaf x lo hi w = refl
  is_none-link (node c l y r) x lo hi w =
      let (a, b, d) = Within-split lo hi (inorder l) y (inorder r) w in
      ground (
        arith,
        any_overlap-append x (inorder l) (y ∷ inorder r),
        is_none-link_left c y r (link l x),
        is_none-link_right c l y (link r x),
        is_none-link l x lo y.low a,
        is_none-link r x y.high hi d,
        any_overlap_above x y.high hi (inorder r) d,
        any_overlap_below x lo y.low (inorder l) a,
      )

  -- What `link` has done to the sequence when it succeeds.
  record Linked (x : IntNode V) (lo hi : ℕ) (t t' : Tree (IntNode V)) : Type 0 where
    within : Within lo hi (inorder t')
    found : (p : ℕ) → find p (inorder t') ≡ (if contains x p then some x else find p (inorder t))

  Linked-left :
      (c : Color) (y x : IntNode V) (lo hi : ℕ) (l l' r : Tree (IntNode V))
      → x.low ≤ x.high
      → x.high ≤ y.low
      → Within lo hi (inorder l ++ (y ∷ inorder r))
      → Linked x lo y.low l l'
      → Linked x lo hi (node c l y r) (node c l' y r)
  Linked-left c y x lo hi l l' r ord h w k =
      let (a, b, d) = Within-split lo hi (inorder l) y (inorder r) w in
      record {
        within = Within-join lo hi (inorder l') y (inorder r) k.within b d;
        found = λ p. ground (
          arith,
          find-append p (inorder l) (y ∷ inorder r),
          find-append p (inorder l') (y ∷ inorder r),
          k.found p,
        );
      }

  Linked-right :
      (c : Color) (y x : IntNode V) (lo hi : ℕ) (l r r' : Tree (IntNode V))
      → x.low ≤ x.high
      → y.high ≤ x.low
      → Within lo hi (inorder l ++ (y ∷ inorder r))
      → Linked x y.high hi r r'
      → Linked x lo hi (node c l y r) (node c l y r')
  unfolding find
  Linked-right c y x lo hi l r r' ord h w k =
      let (a, b, d) = Within-split lo hi (inorder l) y (inorder r) w in
      record {
        within = Within-join lo hi (inorder l) y (inorder r') a b k.within;
        found = λ p. ground (
          arith,
          find-append p (inorder l) (y ∷ inorder r),
          find-append p (inorder l) (y ∷ inorder r'),
          find_above p lo y.low (inorder l) a,
          k.found p,
        );
      }

  link-Linked :
      (t : Tree (IntNode V)) (x : IntNode V) (lo hi : ℕ) (t' : Tree (IntNode V))
      → Within lo hi (inorder t)
      → lo ≤ x.low
      → x.low ≤ x.high
      → x.high ≤ hi
      → link t x ≡ some t'
      → Linked x lo hi t t'
  unfolding link find
  link-Linked leaf x lo hi t' w h1 h2 h3 e =
      subst (Linked x lo hi leaf) {x = node red leaf x leaf} (ground arith)
        (record { within = (h1, h2, h3); found = λ p. refl })
  link-Linked (node c l y r) x lo hi t' w h1 h2 h3 e =
      let (a, b, d) = Within-split lo hi (inorder l) y (inorder r) w in
      elim (dec_le x.high y.low) [
        | yes below ↦ elim (Option-cases (link l x)) [
          | inl miss ↦ ground (arith, miss)
          | inr (l', hit) ↦
              subst (Linked x lo hi (node c l y r)) {x = node c l' y r} (ground arith) (
                Linked-left c y x lo hi l l' r h2 below w
                  (link-Linked l x lo y.low l' a h1 h2 below hit))
        ]
        | no above ↦ elim (Option-cases (link r x)) [
          | inl miss ↦ ground (arith, miss)
          | inr (r', hit) ↦
              let e' : y.high ≤ x.low = ground arith in
              subst (Linked x lo hi (node c l y r)) {x = node c l y r'} (ground arith) (
                Linked-right c y x lo hi l r r' h2 e' w
                  (link-Linked r x y.high hi r' d e' h2 h3 hit))
        ]
      ]

module _ {V : Type 0} (b : IntBalance V) where
  open b use {inorder-insert_color}

  -- On an ordered tree, `rb_int_insert` refuses an interval exactly if it overlaps a node of the
  -- tree.
  pub insert-is_none :
      (t : Tree (IntNode V)) (x : IntNode V)
      → IsOrdered t
      → (insert b t x ≡ none) ↔ (any_overlap x (inorder t) ≡ true)
  unfolding insert
  insert-is_none t x w = (
    λ e. ground (arith, is_none-link t x 0 u64_max w),
    λ e. ground (arith, is_none-link t x 0 u64_max w),
  )

  -- If `rb_int_insert` links a node with `low <= high` into an ordered tree, the tree stays
  -- ordered, and a search for any address answers the new node inside its interval and what it
  -- answered before everywhere else.
  pub insert-search :
      (t : Tree (IntNode V)) (x : IntNode V) {t' : Tree (IntNode V)}
      → IsOrdered t
      → x.low ≤ x.high
      → x.high ≤ u64_max
      → insert b t x ≡ some t'
      → IsOrdered t'
        × ((p : ℕ) → search_single t' p ≡ (if contains x p then some x else search_single t p))
  unfolding insert
  insert-search t x {t'} w h1 h2 e = elim (Option-cases (link t x)) [
    | inl miss ↦ ground (arith, miss)
    | inr (u, hit) ↦
        let k = link-Linked t x 0 u64_max u w (omega arith) h1 h2 hit in
        let q : b.insert_color x u ≡ t' = ground (arith, hit) in
        let o : IsOrdered (b.insert_color x u) = rw (inorder-insert_color x u) k.within in
        subst
          (λ t'.
            IsOrdered t'
            × ((p : ℕ) → search_single t' p ≡ (if contains x p then some x else search_single t p)))
          q
          (
            o,
            λ p.
                search_single-find (b.insert_color x u) 0 u64_max p o
                ∙ ap (find p) (inorder-insert_color x u)
                ∙ k.found p
                ∙ ap (λ z. if contains x p then some x else z)
                    (sym (search_single-find t 0 u64_max p w)),
          )
  ]
