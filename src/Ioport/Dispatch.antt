-- ===== src/Ioport/Dispatch.antt =====
-- Which handler a port reaches after the calls of hw/ioport.c.
use kvmc.Prelude.{
  ℕ, ◌<◌, ◌≡◌, refl, inl, inr, Option, none, some, arith, if◌then◌else◌, Bool, true, false, not,
  Option-cases, ◌↔◌,
}
use kvmc.RbTree.{Balance, inorder}
use kvmc.Interval.{IntNode, IntBalance, IsOrdered, search_single, contains, insert}
use kvmc.Interval.Insert.{insert-is_none, any_overlap}
use kvmc.Interval.Erase.{erase-search, search_single-hit}
use kvmc.Devices.{DeviceHeader, Numbered, err, eexist, enoent}
use kvmc.Data.{Data}
use kvmc.Ioport.{
  Ioport, IoState, Ops, entry_at, emulate_io, drop_at, add_entry, register_at, register, unregister,
}

module _ {S : Type 0} where
  -- An answer, unless the entry (if there is one) holds the port: that entry is gone.
  abbrev pub hide :
      Option (IntNode (Ioport S)) → ℕ → Option (IntNode (Ioport S)) → Option (IntNode (Ioport S))
  hide none p answer = answer
  hide (some old) p answer = if contains old p then none else answer

  -- What a search for `p` answers once the entry that holds `port` is gone.
  abbrev pub without : IoState S → ℕ → ℕ → Option (IntNode (Ioport S))
  without s port p = hide (search_single s.tree port) p (search_single s.tree p)

  -- `emulate_io` where no entry holds the port.
  emulate_io-unclaimed :
      (s : IoState S) (debug : Bool) (port direction size count : ℕ) (m : S) (d : Data)
      → search_single s.tree port ≡ none
      → emulate_io s debug port direction size count (m, d) ≡ (not debug, m, d)
  unfolding emulate_io
  emulate_io-unclaimed s debug port direction size count m d e = rw (e, emulate_io)

module _ {S : Type 0} (b : IntBalance (Ioport S)) (db : Balance DeviceHeader Numbered) where
  drop_at-search :
      (s : IoState S) (port : ℕ)
      → IsOrdered s.tree
      → IsOrdered (drop_at b db s port).tree
        × ((p : ℕ) → search_single (drop_at b db s port).tree p ≡ without s port p)
  unfolding drop_at
  drop_at-search s port o = elim (Option-cases (search_single s.tree port)) [
    | inl miss ↦ rw (miss, drop_at) (o, λ p. refl)
    | inr (old, hit) ↦ rw (hit, drop_at) (erase-search b s.tree port old o hit)
  ]

  drop_at_lock :
      (s : IoState S) (port : ℕ)
      → (drop_at b db (record s { write_locked = true }) port).tree ≡ (drop_at b db s port).tree
  unfolding drop_at
  drop_at_lock s port = elim (Option-cases (search_single s.tree port)) [
    | inl miss ↦ rw (miss, drop_at)
    | inr (old, hit) ↦ rw (hit, drop_at)
  ]

  -- On an ordered tree and with memory given, `ioport__register` at a given port below 65535 fails
  -- with EEXIST exactly if the new range overlaps an
  -- entry that stays in the tree when the entry that holds `port` is taken out.
  register_conflict :
      (s : IoState S) (port count addr : ℕ) (ops : Ops S)
      → IsOrdered s.tree
      → port < 65535
      → ((register b db port ops count (some addr) s).0 ≡ err eexist)
        ↔ (any_overlap (entry_at port count ops addr) (inorder (drop_at b db s port).tree) ≡ true)
  unfolding register register_at add_entry
  register_conflict s port count addr ops o h =
      let locked = record s { write_locked = true } in
      let x = entry_at port count ops addr in
      let iff =
        insert-is_none b (drop_at b db locked port).tree x (drop_at-search locked port o).0 in
      let same : (drop_at b db locked port).tree ≡ (drop_at b db s port).tree =
        drop_at_lock s port in
      elim (Option-cases (insert b (drop_at b db locked port).tree x)) [
        | inl miss ↦
            let over : any_overlap x (inorder (drop_at b db locked port).tree) ≡ true =
              iff.0 miss in
            (λ e. ground (arith, over, same), λ e. ground (arith, miss))
        | inr (t, hit) ↦ (
          λ e. ground (arith, hit),
          λ e.
              let miss : insert b (drop_at b db locked port).tree x ≡ none = iff.1 (rw same e) in
              ground (arith, miss, hit),
        )
      ]

  -- A registration that fails with EEXIST has nevertheless taken the entry that held `port` out of
  -- the tree, which stays ordered, and released the lock; all other ports reach what they reached
  -- before.
  register_conflict_evicts :
      (s : IoState S) (port count addr p : ℕ) (ops : Ops S)
      → IsOrdered s.tree
      → port < 65535
      → (register b db port ops count (some addr) s).0 ≡ err eexist
      → let s' = (register b db port ops count (some addr) s).1 in
        IsOrdered s'.tree × (search_single s'.tree p ≡ without s port p) × (s'.write_locked ≡ false)
  unfolding register register_at add_entry
  register_conflict_evicts s port count addr p ops o h e =
      let locked = record s { write_locked = true } in
      let (o', after) = drop_at-search locked port o in
      let x = entry_at port count ops addr in
      elim (Option-cases (insert b (drop_at b db locked port).tree x)) [
        | inl miss ↦ ground (arith, miss, o', after p)
        | inr (t, hit) ↦ ground (arith, hit)
      ]

  -- On an ordered tree `ioport__unregister` answers ENOENT exactly if no entry holds the port. Afterwards no entry
  -- holds the port, the other ports reach what they reached before, unless that was the entry which
  -- held the port, the tree is ordered and the lock is released.
  unregister_lem :
      (s : IoState S) (port p : ℕ)
      → IsOrdered s.tree
      → let (r, s') = unregister b db port s in
        IsOrdered s'.tree
        × (search_single s'.tree p ≡ without s port p)
        × (s'.write_locked ≡ false)
        × ((r ≡ err enoent) ↔ (search_single s.tree port ≡ none))
        × (search_single s'.tree port ≡ none)
  unfolding unregister
  unregister_lem s port p o = elim (Option-cases (search_single s.tree port)) [
    | inl miss ↦ rw (miss, unregister) (o, refl, refl, (λ e. refl, λ e. refl), miss)
    | inr (old, hit) ↦
        let (o', after) = erase-search b s.tree port old o hit in
        let inside = (search_single-hit s.tree port port old o hit).0 in
        rw (hit, unregister)
          (o', after p, refl, (λ e. cc, λ e. cc), ground (arith, after port, inside))
  ]
