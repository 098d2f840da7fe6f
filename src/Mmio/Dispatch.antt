-- ===== src/Mmio/Dispatch.antt =====
-- Which handler a memory access reaches after the calls of hw/mmio.c.
use kvmc.Prelude.{
  ℕ, ◌+◌, ◌-◌, ◌%◌, ◌^◌, ◌<◌, ◌≡◌, refl, inl, inr, Option, none, some, arith, if◌then◌else◌, Bool,
  true, Option-cases, ◌∷◌,
}
use kvmc.RbTree.{inorder}
use kvmc.Interval.{IntNode, IntBalance, IsOrdered, search_single, search_range, contains, insert}
use kvmc.Interval.Insert.{insert-search, insert-is_none, any_overlap}
use kvmc.Interval.Erase.{erase-search, search_single-hit}
use kvmc.Devices.{ok, err, eexist}
use kvmc.Data.{Data}
use kvmc.Mmio.{
  MmioFn, MmioState, mapping, register_zone, emulate_mmio, map_region, coalesce_zone, register_mmio,
  deregister_mmio,
}

module _ {S : Type 0} where
  -- On an ordered tree, an access of at least one byte that does not wrap, and whose first byte lies
  -- in a region, runs the region's handler, on the access's own
  -- address and length, exactly if the region holds its first and its last byte; otherwise state
  -- and buffer stay as they are. The answer is true in any case.
  pub emulate_mmio_lem :
      (s : MmioState S) (addr len : ℕ) (w : Bool) (m : S) (d : Data) (x : IntNode (MmioFn S))
      → IsOrdered s.tree
      → 0 < len
      → addr + len < 2 ^ 64
      → search_single s.tree addr ≡ some x
      → emulate_mmio s addr len w (m, d) ≡ (
          if contains x (addr + len - 1)
          then (let (m', d') = x.payload addr len w (m, d) in (true, m', d'))
          else (true, m, d))
  unfolding emulate_mmio search_range
  emulate_mmio_lem s addr len w m d x o h1 h2 e =
      let inside = (search_single-hit s.tree addr addr x o e).0 in
      let no_wrap : (addr + len) % 2 ^ 64 ≡ addr + len = omega arith in
      ground (arith, e, inside, no_wrap)

  -- An access whose first byte lies in no region changes nothing.
  emulate_mmio-unclaimed :
      (s : MmioState S) (addr len : ℕ) (w : Bool) (m : S) (d : Data)
      → search_single s.tree addr ≡ none
      → emulate_mmio s addr len w (m, d) ≡ (true, m, d)
  unfolding emulate_mmio search_range
  emulate_mmio-unclaimed s addr len w m d e = ground (arith, e)

module _ {S : Type 0} (b : IntBalance (MmioFn S)) where
  map_region_lem :
      (s : MmioState S) (addr len p : ℕ) (f : MmioFn S)
      → IsOrdered s.tree
      → addr + len < 2 ^ 64
      → ((map_region b addr len f s).0 ≡ err eexist
          → any_overlap (mapping addr len f) (inorder s.tree) ≡ true)
        × IsOrdered (map_region b addr len f s).1.tree
        × ((map_region b addr len f s).0 ≡ ok 0
            → search_single (map_region b addr len f s).1.tree p ≡ (
                if contains (mapping addr len f) p
                then some (mapping addr len f)
                else search_single s.tree p))
  unfolding map_region
  map_region_lem s addr len p f o h = elim (Option-cases (insert b s.tree (mapping addr len f))) [
    | inl miss ↦
        let over = (insert-is_none b s.tree (mapping addr len f) o).0 miss in
        (λ e. over, ground (arith, miss, o), λ e. ground (arith, miss))
    | inr (t, hit) ↦
        let (o', found) =
          insert-search b s.tree (mapping addr len f) o (omega arith) (omega arith) hit in
        (λ e. ground (arith, hit), ground (arith, hit, o'), λ e. ground (arith, hit, found p))
  ]

  -- Whatever the allocation and the ioctl answer, a registration of a region that does not wrap
  -- leaves the tree ordered.
  register_mmio-IsOrdered :
      (s : MmioState S) (addr len : ℕ) (coalesce malloc : Bool) (ioctl : Option ℕ) (f : MmioFn S)
      → IsOrdered s.tree
      → addr + len < 2 ^ 64
      → IsOrdered (register_mmio b addr len coalesce f malloc ioctl s).1.tree
  unfolding register_mmio coalesce_zone
  register_mmio-IsOrdered s addr len coalesce malloc none f o h = ground (
    arith,
    (map_region_lem s addr len 0 f o h).1,
    (map_region_lem (record s { zones = register_zone addr len ∷ s.zones }) addr len 0 f o h).1,
  )
  register_mmio-IsOrdered s addr len coalesce malloc (some errno) f o h =
      ground (arith, (map_region_lem s addr len 0 f o h).1)

  -- If the registration of a region that does not wrap answers 0, on an ordered tree, each address of the region
  -- reaches the new handler and every other address what it reached before.
  register_mmio_dispatch :
      (s : MmioState S) (addr len p : ℕ) (coalesce malloc : Bool) (ioctl : Option ℕ) (f : MmioFn S)
      → IsOrdered s.tree
      → addr + len < 2 ^ 64
      → (register_mmio b addr len coalesce f malloc ioctl s).0 ≡ ok 0
      → search_single (register_mmio b addr len coalesce f malloc ioctl s).1.tree p ≡ (
          if contains (mapping addr len f) p
          then some (mapping addr len f)
          else search_single s.tree p)
  unfolding register_mmio coalesce_zone
  register_mmio_dispatch s addr len p coalesce malloc none f o h e = ground (
    arith,
    (map_region_lem s addr len p f o h).2,
    (map_region_lem (record s { zones = register_zone addr len ∷ s.zones }) addr len p f o h).2,
  )
  register_mmio_dispatch s addr len p coalesce malloc (some errno) f o h e =
      ground (arith, (map_region_lem s addr len p f o h).2)

  -- If a region of an ordered tree holds the address, `kvm__deregister_mmio` answers true; afterwards
  -- no region holds it, the
  -- tree is ordered, and the addresses outside the region reach what they reached before.
  deregister_mmio_lem :
      (s : MmioState S) (addr : ℕ) (p : ℕ) (x : IntNode (MmioFn S))
      → IsOrdered s.tree
      → search_single s.tree addr ≡ some x
      → let (found, s') = deregister_mmio b addr s in
        (found ≡ true)
        × IsOrdered s'.tree
        × (search_single s'.tree p ≡ (if contains x p then none else search_single s.tree p))
        × (search_single s'.tree addr ≡ none)
  unfolding deregister_mmio
  deregister_mmio_lem s addr p x o e =
      let (o', after) = erase-search b s.tree addr x o e in
      let inside = (search_single-hit s.tree addr addr x o e).0 in
      rw (e, deregister_mmio) (refl, o', after p, ground (arith, after addr, inside))
