-- ===== src/P9/Fids/Erase.antt =====
-- A number taken out of the table of fids.
use kvmc.Prelude.{
  ℕ, suc, ◌^◌, ◌<◌, ◌≡◌, sym, ap, ◌∙◌, List, [], ◌∷◌, ◌++◌, none, some, arith, ◌==◌, if◌then◌else◌,
}
use mathlib.Core.Path.{subst, ap₂}
use native.Mathlib.Decide.{ℕ_discrete}
use kvmc.RbTree.{Tree, inorder}
use kvmc.P9.{Node}
use kvmc.P9.Fids.{search_fid, Ascends, FidBalance}
use kvmc.P9.Fids.Table.{lookup, Below, Ascends-le, lookup-below, search_fid-lookup, IsTable}

-- The place of a number, and the sequence without it.
pub record Place (lo fid p : ℕ) (xs : List Node) : Type 0 where
  pub front : List Node
  pub back : List Node
  pub split : xs ≡ front ++ (record { key = fid; at = p } ∷ back)
  pub ordered : Ascends lo (front ++ back)
  pub small : Below (2 ^ 31) (front ++ back)
  pub rest : (g : ℕ) → lookup (front ++ back) g ≡ (if fid == g then none else lookup xs g)

pub place :
    (lo fid p : ℕ) (xs : List Node)
    → Ascends lo xs
    → Below (2 ^ 31) xs
    → lookup xs fid ≡ some p
    → Place lo fid p xs
place lo fid p [] s b e = absurd (ground (arith, e))
place lo fid p (x ∷ xs) s b e = elim (ℕ_discrete x.key fid) [
  | yes same ↦
      let at : x.at ≡ p = ground (arith, e) in
      record {
        front = [];
        back = xs;
        split = ap₂ (λ k q. record { key = k; at = q } ∷ xs) same at;
        ordered = Ascends-le lo (suc x.key) xs (omega arith) s.1;
        small = b.1;
        rest = λ g. ground (arith, lookup-below (suc x.key) xs g s.1);
      }
  | no other ↦
      let h = place (suc x.key) fid p xs s.1 b.1 (ground (arith, e)) in
      let under : x.key < fid = ground (arith, e, lookup-below (suc x.key) xs fid s.1) in
      record {
        front = x ∷ h.front;
        back = h.back;
        split = ap (λ t. x ∷ t) h.split;
        ordered = (s.0, h.ordered);
        small = (b.0, h.small);
        rest = λ g. ground (arith, h.rest g);
      }
]

-- Erasing the node of a number leaves a table in which that number is not found.
pub erase-search_fid :
    (tree : FidBalance) (t : Tree Node) (fid p : ℕ)
    → IsTable t
    → search_fid t fid ≡ some p
    → let t' = tree.erase (record { key = fid; at = p }) t in
      IsTable t' × ((g : ℕ) → search_fid t' g ≡ (if fid == g then none else search_fid t g))
erase-search_fid tree t fid p h e =
    let at =
      place 0 fid p (inorder t) h.ordered h.small (sym (search_fid-lookup t 0 fid h.ordered) ∙ e) in
    let x : Node = record { key = fid; at = p } in
    let seq = tree.inorder-erase x t at.front at.back at.split h.ordered in
    let ordered' = subst (Ascends 0) (sym seq) at.ordered in
    (
      record { ordered = ordered'; small = subst (Below (2 ^ 31)) (sym seq) at.small },
      λ g.
          search_fid-lookup (tree.erase x t) 0 g ordered'
          ∙ ap (λ xs. lookup xs g) seq
          ∙ at.rest g
          ∙ ap (λ o. if fid == g then none else o) (sym (search_fid-lookup t 0 g h.ordered)),
    )
