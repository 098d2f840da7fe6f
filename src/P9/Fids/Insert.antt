-- ===== src/P9/Fids/Insert.antt =====
-- A new number in the table of fids.
use kvmc.Prelude.{
  true, ℕ, suc, ◌+◌, ◌^◌, ◌≤◌, ◌<◌, ◌≡◌, refl, sym, ap, ◌∙◌, List, [], ◌∷◌, ◌++◌, none, some, arith,
  ltb, ◌==◌, if◌then◌else◌,
}
use mathlib.Core.Path.{subst}
use native.Mathlib.Decide.{dec_lt}
use kvmc.RbTree.{Tree, leaf, node, red, inorder}
use kvmc.P9.{Node}
use kvmc.P9.Fids.{search_fid, link_fid, below, above, Ascends, insert_new_fid, FidBalance}
use kvmc.P9.Fids.Table.{
  lookup, Below, Ascends-split, lookup-above, lookup-append, search_fid-lookup, IsTable,
}

-- `n` at its place in a sequence.
abbrev pub insert_in : Node → List Node → List Node
insert_in n [] = n ∷ []
insert_in n (x ∷ xs) = if ltb n.key x.key then n ∷ x ∷ xs else x ∷ insert_in n xs

insert_in-left :
    (n : Node) (xs : List Node) (y : Node) (ys : List Node)
    → n.key < y.key
    → insert_in n (xs ++ (y ∷ ys)) ≡ insert_in n xs ++ (y ∷ ys)
insert_in-left n [] y ys h = ground arith
insert_in-left n (x ∷ xs) y ys h = ground (arith, insert_in-left n xs y ys h)

insert_in-right :
    (n : Node) (xs : List Node) (y : Node) (ys : List Node)
    → Below y.key xs
    → y.key < n.key
    → insert_in n (xs ++ (y ∷ ys)) ≡ xs ++ (y ∷ insert_in n ys)
insert_in-right n [] y ys b h = ground arith
insert_in-right n (x ∷ xs) y ys b h = ground (arith, insert_in-right n xs y ys b.1 h)

pub lookup-insert_in :
    (n : Node) (xs : List Node) (lo fid : ℕ)
    → Ascends lo xs
    → lookup xs n.key ≡ none
    → lookup (insert_in n xs) fid ≡ (if n.key == fid then some n.at else lookup xs fid)
lookup-insert_in n [] lo fid s e = refl
lookup-insert_in n (x ∷ xs) lo fid s e = ground (arith, lookup-insert_in n xs (suc x.key) fid s.1)

pub Ascends-insert_in :
    (n : Node) (xs : List Node) (lo : ℕ)
    → Ascends lo xs
    → lo ≤ n.key
    → lookup xs n.key ≡ none
    → Ascends lo (insert_in n xs)
Ascends-insert_in n [] lo s h e = (h, tt)
Ascends-insert_in n (x ∷ xs) lo s h e = ground (arith, Ascends-insert_in n xs (suc x.key) s.1)

Below-insert_in :
    (n : Node) (xs : List Node) (hi : ℕ) → Below hi xs → n.key < hi → Below hi (insert_in n xs)
Below-insert_in n [] hi s h = (h, tt)
Below-insert_in n (x ∷ xs) hi s h = ground (arith, Below-insert_in n xs hi s.1 h)

Below-split :
    (hi : ℕ) (xs : List Node) (y : Node) (ys : List Node)
    → Below hi (xs ++ (y ∷ ys))
    → Below hi xs × (y.key < hi) × Below hi ys
Below-split hi [] y ys s = (tt, s.0, s.1)
Below-split hi (x ∷ xs) y ys s = let (a, b, c) = Below-split hi xs y ys s.1 in ((s.0, a), b, c)

-- Numbers below 2 ^ 31 are compared by the sign of their difference.
below-small : (a b : ℕ) → a < 2 ^ 31 → b < 2 ^ 31 → below a b ≡ ltb a b
below-small a b ha hb = ground arith

above-small : (a b : ℕ) → a < 2 ^ 31 → b < 2 ^ 31 → above a b ≡ ltb b a
above-small a b ha hb = ground arith

abbrev Linked : Tree Node → Node → Type 0
Linked t n = (t' : Tree Node) × (link_fid t n ≡ some t') × (inorder t' ≡ insert_in n (inorder t))

-- A new number is linked at its place.
pub link_fid-inorder :
    (t : Tree Node) (n : Node) (lo : ℕ)
    → Ascends lo (inorder t)
    → Below (2 ^ 31) (inorder t)
    → n.key < 2 ^ 31
    → lookup (inorder t) n.key ≡ none
    → Linked t n
unfolding link_fid
link_fid-inorder leaf n lo s b h e = (node red leaf n leaf, refl, refl)
link_fid-inorder (node c l x r) n lo s b h e =
    let (left, under, at, right) = Ascends-split lo (inorder l) x (inorder r) s in
    let (bl, bx, br) = Below-split (2 ^ 31) (inorder l) x (inorder r) b in
    let split = lookup-append (inorder l) x (inorder r) n.key in
    let before = below-small n.key x.key h bx in
    let after = above-small n.key x.key h bx in
    elim (dec_lt n.key x.key) [
      | yes less ↦
          let (l', el, il) = link_fid-inorder l n lo left bl h (ground (arith, split)) in
          (
            node c l' x r,
            ground (arith, before, el),
            rw il (sym (insert_in-left n (inorder l) x (inorder r) less)),
          )
      | no more ↦
          let other : x.key < n.key =
            ground (arith, split, lookup-above x.key (inorder l) n.key under) in
          let (r', er, ir) =
            link_fid-inorder r n (suc x.key) right br h
              (ground (arith, split, lookup-above x.key (inorder l) n.key under)) in
          (
            node c l x r',
            ground (arith, before, after, er),
            rw ir (sym (insert_in-right n (inorder l) x (inorder r) under other)),
          )
    ]

-- A new number below 2 ^ 31 is found afterwards, and every other number as before.
pub insert_new_fid-search :
    (tree : FidBalance) (t : Tree Node) (n : Node)
    → IsTable t
    → n.key < 2 ^ 31
    → search_fid t n.key ≡ none
    → IsTable (insert_new_fid tree n t)
      × ((fid : ℕ)
          → search_fid (insert_new_fid tree n t) fid
            ≡ (if n.key == fid then some n.at else search_fid t fid))
unfolding insert_new_fid
insert_new_fid-search tree t n h lt e =
    let absent : lookup (inorder t) n.key ≡ none =
      sym (search_fid-lookup t 0 n.key h.ordered) ∙ e in
    let (t', linked, placed) = link_fid-inorder t n 0 h.ordered h.small lt absent in
    let seq : inorder (tree.insert_color n t') ≡ insert_in n (inorder t) =
      tree.inorder-insert_color n t' ∙ placed in
    let ordered' =
      subst (Ascends 0) (sym seq)
        (Ascends-insert_in n (inorder t) 0 h.ordered (omega arith) absent) in
    let small' =
      subst (Below (2 ^ 31)) (sym seq) (Below-insert_in n (inorder t) (2 ^ 31) h.small lt) in
    let at : insert_new_fid tree n t ≡ tree.insert_color n t' = ground (arith, linked) in
    rw at (
      record { ordered = ordered'; small = small' },
      λ fid.
          search_fid-lookup (tree.insert_color n t') 0 fid ordered'
          ∙ ap (λ xs. lookup xs fid) seq
          ∙ lookup-insert_in n (inorder t) 0 fid h.ordered absent
          ∙ ap (λ o. if n.key == fid then some n.at else o)
              (sym (search_fid-lookup t 0 fid h.ordered)),
    )

-- The new number is far above all of them.
abbrev pub AllFar : ℕ → List Node → Type 0
AllFar fid [] = Unit
AllFar fid (x ∷ xs) = (x.key + 2 ^ 31 ≤ fid) × AllFar fid xs

AllFar-split :
    (fid : ℕ) (xs : List Node) (y : Node) (ys : List Node)
    → AllFar fid (xs ++ (y ∷ ys))
    → AllFar fid xs × (y.key + 2 ^ 31 ≤ fid)
AllFar-split fid [] y ys h = (tt, h.0)
AllFar-split fid (x ∷ xs) y ys h = let (a, b) = AllFar-split fid xs y ys h.1 in ((h.0, a), b)

link_fid-first :
    (t : Tree Node) (n : Node)
    → n.key < 2 ^ 32
    → AllFar n.key (inorder t)
    → (t' : Tree Node) × (link_fid t n ≡ some t') × (inorder t' ≡ n ∷ inorder t)
unfolding link_fid
link_fid-first leaf n word far = (node red leaf n leaf, refl, refl)
link_fid-first (node c l x r) n word far =
    let (left, apart) = AllFar-split n.key (inorder l) x (inorder r) far in
    let (l', linked, first) = link_fid-first l n word left in
    let less : below n.key x.key ≡ true = ground arith in
    (node c l' x r, ground (arith, less, linked), rw first refl)

-- A number that is 2 ^ 31 or more above every number of the table is put before them all, whatever
-- rotations follow: the tree is then not ordered by its numbers.
pub insert_new_fid-first :
    (tree : FidBalance) (t : Tree Node) (n : Node)
    → n.key < 2 ^ 32
    → AllFar n.key (inorder t)
    → inorder (insert_new_fid tree n t) ≡ n ∷ inorder t
unfolding insert_new_fid
insert_new_fid-first tree t n word far =
    let (t', linked, first) = link_fid-first t n word far in
    let at : insert_new_fid tree n t ≡ tree.insert_color n t' = ground (arith, linked) in
    rw at (tree.inorder-insert_color n t' ∙ first)
