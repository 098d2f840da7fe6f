-- ===== src/Ioport/Locks.antt =====
-- The write lock and the freed entries of hw/ioport.c.
use kvmc.Prelude.{
  ℕ, ◌≡◌, refl, ◌∷◌, Option, none, some, Bool, true, false, inl, inr, arith, Option-cases, ◌∙◌,
}
use kvmc.RbTree.{Balance}
use kvmc.Interval.{IntNode, IntBalance, search_single, insert}
use kvmc.Devices.{DeviceHeader, Numbered}
use kvmc.Ioport.{
  Ioport, IoState, Ops, entry_at, find_free_port, drop_at, add_entry, register_at, register,
  unregister,
}

abbrev pub is_null : Option ℕ → Bool
is_null none = true
is_null (some addr) = false

module _ {S : Type 0} (b : IntBalance (Ioport S)) (db : Balance DeviceHeader Numbered) where
  drop_at_locked : (s : IoState S) (port : ℕ) → (drop_at b db s port).write_locked ≡ s.write_locked
  unfolding drop_at
  drop_at_locked s port = elim (Option-cases (search_single s.tree port)) [
    | inl miss ↦ rw (miss, drop_at)
    | inr (old, hit) ↦ rw (hit, drop_at)
  ]

  register_at_locked :
      (port : ℕ) (ops : Ops S) (count : ℕ) (malloc : Option ℕ) (s : IoState S)
      → s.write_locked ≡ true
      → (register_at b db port ops count malloc s).1.write_locked ≡ is_null malloc
  unfolding register_at add_entry
  register_at_locked port ops count none s l = drop_at_locked s port ∙ l
  register_at_locked port ops count (some addr) s l =
      elim (Option-cases (insert b (drop_at b db s port).tree (entry_at port count ops addr))) [
        | inl miss ↦ ground (arith, miss)
        | inr (t, hit) ↦ ground (arith, hit)
      ]

  -- `ioport__register` returns with the write lock held exactly if the allocation failed, whatever
  -- the port and the state: the path for a failed allocation forgets the unlock.
  register_locked :
      (port : ℕ) (ops : Ops S) (count : ℕ) (malloc : Option ℕ) (s : IoState S)
      → (register b db port ops count malloc s).1.write_locked ≡ is_null malloc
  unfolding register find_free_port
  register_locked port ops count malloc s =
      let locked = record s { write_locked = true } in
      let (free, s') = find_free_port locked in
      ground (
        arith,
        register_at_locked free ops count malloc s',
        register_at_locked port ops count malloc locked,
      )

  -- `ioport__unregister` of a registered port frees the entry, and leaves the header inside it
  -- linked among the devices: the device trees are the same as before.
  unregister_dangles :
      (s : IoState S) (port : ℕ) (entry : IntNode (Ioport S))
      → search_single s.tree port ≡ some entry
      → let s' = (unregister b db port s).1 in
        (s'.freed ≡ entry.payload.addr ∷ s.freed) × (s'.devices ≡ s.devices)
  unfolding unregister
  unregister_dangles s port entry e = rw (e, unregister) (refl, refl)
