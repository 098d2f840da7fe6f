-- ===== src/Devices/Spine.antt =====
-- A concrete balance for the trees of devices, by rebuilding the tree from its sequence.
use mathlib.Core.Path.{subst}
use kvmc.Prelude.{ℕ, ◌+◌, ◌≤◌, ◌≡◌, refl, List, [], ◌∷◌, ◌++◌, arith, if◌then◌else◌, ◌==◌, ◌∙◌, ap}
use kvmc.RbTree.{Tree, leaf, node, black, inorder, Balance}
use kvmc.Devices.{DeviceHeader, Numbered, Rising}

abbrev chain : List DeviceHeader → Tree DeviceHeader
chain [] = leaf
chain (x ∷ xs) = node black leaf x (chain xs)

inorder-chain : (xs : List DeviceHeader) → inorder (chain xs) ≡ xs
inorder-chain [] = refl
inorder-chain (x ∷ xs) = rw (inorder-chain xs)

abbrev drop_number : ℕ → List DeviceHeader → List DeviceHeader
drop_number n [] = []
drop_number n (y ∷ ys) = if y.dev_num == n then ys else y ∷ drop_number n ys

Rising-append :
    (n : ℕ) (xs : List DeviceHeader) (x : DeviceHeader) (ys : List DeviceHeader)
    → Rising n (xs ++ (x ∷ ys))
    → n ≤ x.dev_num
Rising-append n [] x ys r = r.0
Rising-append n (z ∷ zs) x ys r = omega (arith, Rising-append (z.dev_num + 1) zs x ys r.1)

drop_number-split :
    (n : ℕ) (xs : List DeviceHeader) (x : DeviceHeader) (ys : List DeviceHeader)
    → Rising n (xs ++ (x ∷ ys))
    → drop_number x.dev_num (xs ++ (x ∷ ys)) ≡ xs ++ ys
drop_number-split n [] x ys r = ground arith
drop_number-split n (z ∷ zs) x ys r = ground (
  arith,
  Rising-append (z.dev_num + 1) zs x ys r.1,
  drop_number-split (z.dev_num + 1) zs x ys r.1,
)

pub chain_law :
    (x : DeviceHeader) (t : Tree DeviceHeader) (xs ys : List DeviceHeader)
    → inorder t ≡ xs ++ (x ∷ ys)
    → Numbered x (inorder t)
    → inorder (chain (drop_number x.dev_num (inorder t))) ≡ xs ++ ys
chain_law x t xs ys e h =
    inorder-chain (drop_number x.dev_num (inorder t))
    ∙ ap (drop_number x.dev_num) e
    ∙ drop_number-split 0 xs x ys (subst (Rising 0) e h)

abbrev pub chain_balance : Balance DeviceHeader Numbered
chain_balance = record {
  insert_color = λ x t. t;
  erase = λ x t. chain (drop_number x.dev_num (inorder t));
  inorder-insert_color = λ x t. refl;
  inorder-erase = chain_law;
}
