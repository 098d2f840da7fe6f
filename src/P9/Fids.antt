-- ===== src/P9/Fids.antt =====
-- hw/virtio/9p.c: the table of fids, a tree that is searched by an unsigned comparison and filled by
-- the sign of a difference.
pub mod Table
pub mod Insert
pub mod Erase
pub mod Refine
pub mod Spine
use kvmc.Prelude.{
  ℕ, zero, suc, ◌+◌, ◌-◌, ◌%◌, ◌^◌, ◌≤◌, List, [], ◌∷◌, ◌++◌, Bool, true, false, Option, none, some,
  ltb, leb, ◌==◌, not, if◌then◌else◌, length, get_elem?, set, ◌&&◌,
}
use kvmc.RbTree.{Tree, leaf, node, Color, red, Balance}
use kvmc.P9.{
  Text, Fid, Node, Host, P9, Ending, Exec, ok, pure, crash, get_state, ask, deref, modify, run_host,
  ◌>>=◌, ◌>>◌,
}
use kvmc.P9.Paths.{path_max}

-- The search of `find_or_create_fid`.
unfoldable pub search_fid : Tree Node → ℕ → Option ℕ
search_fid leaf fid = none
search_fid (node c l cur r) fid =
    let left = search_fid l fid in
    let right = search_fid r fid in
    if ltb fid cur.key then left else if ltb cur.key fid then right else some cur.at

-- `int result = a - b`: negative, and positive.
abbrev pub below : ℕ → ℕ → Bool
below a b = leb (2 ^ 31) ((a + 2 ^ 32 - b) % 2 ^ 32)

abbrev pub above : ℕ → ℕ → Bool
above a b = let result = (a + 2 ^ 32 - b) % 2 ^ 32 in ltb 0 result && ltb result (2 ^ 31)

abbrev left_linked : Color → Node → Tree Node → Option (Tree Node) → Option (Tree Node)
left_linked c x r none = none
left_linked c x r (some l) = some (node c l x r)

abbrev right_linked : Color → Tree Node → Node → Option (Tree Node) → Option (Tree Node)
right_linked c l x none = none
right_linked c l x (some r) = some (node c l x r)

-- The descent of `insert_new_fid` with `rb_link_node` at its end; `none` is -EEXIST.
unfoldable pub link_fid : Tree Node → Node → Option (Tree Node)
link_fid leaf new = some (node red leaf new leaf)
link_fid (node c l cur r) new =
    let left = left_linked c cur r (link_fid l new) in
    let right = right_linked c l cur (link_fid r new) in
    if below new.key cur.key then left else if above new.key cur.key then right else none

-- Keys that ascend from a bound on: what makes one node of a sequence the one that is erased.
abbrev pub Ascends : ℕ → List Node → Type 0
Ascends lo [] = Unit
Ascends lo (x ∷ xs) = (lo ≤ x.key) × Ascends (suc x.key) xs

abbrev pub Erasable : Node → List Node → Type 0
Erasable x xs = Ascends 0 xs

abbrev pub FidBalance : Type 0
FidBalance = Balance Node Erasable

abbrev pub new_fid : ℕ → Fid
new_fid fid = record { fid = fid; uid = 0; path = []; dir = 0; fd = 0 }

module _ (tree : FidBalance) where
  unfoldable pub insert_new_fid : Node → Tree Node → Tree Node
  insert_new_fid new fids = elim (link_fid fids new) [
    | none ↦ fids
    | some linked ↦ tree.insert_color new linked
  ]

module _ {H : Type 0} (os : Host H) (tree : FidBalance) where
  unfoldable pub add_fid : ℕ → Exec H (Option ℕ)
  add_fid fid s =
      let p = length s.store in
      let new : Node = record { key = fid; at = p } in
      if leb path_max (length s.root_dir) then (ok none, s) else (
        ok (some p),
        record s { store = s.store ++ (new_fid fid ∷ []); fids = insert_new_fid tree new s.fids },
      )

  -- NULL, or a pointer.
  unfoldable pub find_or_create_fid : ℕ → Exec H (Option ℕ)
  find_or_create_fid fid = do
    found ← get_state (λ s. search_fid s.fids fid)
    elim found [
      | some p ↦ pure (some p)
      | none ↦ do given ← ask os.calloc; if given then add_fid fid else pure none
    ]

  -- `get_fid`, whose callers use the pointer without a test.
  unfoldable pub get_fid : ℕ → Exec H ℕ
  get_fid fid = find_or_create_fid fid >>= deref

module _ {H : Type 0} where
  -- `*p`, and an assignment to its fields.
  unfoldable pub load_fid : ℕ → Exec H Fid
  load_fid p = get_state (λ s. get_elem? s.store p) >>= deref

  unfoldable pub update_fid : ℕ → (Fid → Fid) → Exec H (Unit {0})
  update_fid p f = do c ← load_fid p; modify (λ s. record s { store = set s.store p (f c) })

  unfoldable pub abs_path : ℕ → Exec H Text
  abs_path p = do c ← load_fid p; root ← get_state (λ s. s.root_dir); pure (root ++ c.path)

  -- `join_path`: whether the name fits, in which case it is the fid's path.
  unfoldable pub join_path : ℕ → Text → Exec H Bool
  join_path p name = do
    size ← get_state (λ s. path_max - length s.root_dir)
    if leb size (length name)
        then pure false
        else do update_fid p (λ c. record c { path = name }); pure true

module _ {H : Type 0} (os : Host H) (tree : FidBalance) where
  unfoldable pub close_fid : ℕ → Exec H (Unit {0})
  close_fid fid = do
    p ← get_fid os tree fid
    c ← load_fid p
    if ltb 0 c.fd && ltb c.fd (2 ^ 31) then run_host (os.close c.fd) else pure tt
    if c.dir == 0 then pure tt else run_host (os.closedir c.dir)
    modify (λ s. record s { fids = tree.erase (record { key = c.fid; at = p }) s.fids })
