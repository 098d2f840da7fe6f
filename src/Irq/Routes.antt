-- ===== src/Irq/Routes.antt =====
-- What the calls of src/irq.c do to the table of routes.
use kvmc.Prelude.{
  ℕ, ◌+◌, ◌*◌, ◌/◌, ◌≤◌, ◌≡◌, ◌≢◌, refl, List, [], ◌∷◌, ◌++◌, Bool, true, false, not, ◌&&◌, none,
  some, ltb, ◌==◌, if◌then◌else◌, length, length-append, arith, All,
}
use kvmc.Irq.{
  RoutingEntry, MsiMsg, ok, enomem, failed, Routing, allocate_routing_entry, check_for_irq_routing,
  route_of, append_route, add_msix_route, update_entry, update_first, update_msix_route,
}

-- The table has room for its entries.
abbrev pub Fits : Routing → Type 0
Fits r = length (elim r.irq_routing [ none ↦ [] | some es ↦ es ]) ≤ r.allocated_gsis

-- On a machine that supports routing, for a table that has room for its entries, with memory for a
-- larger one and a kernel that takes every table,
-- `irq__add_msix_route` answers the next number, puts the route of that number behind the routes
-- that are there, hands the kernel this table, counts the number up, and has allocated the entry
-- that it wrote.
pub add_msix_route_lem :
    (needs_devid : Bool) (msg : MsiMsg) (device_id : ℕ) (update_route : List RoutingEntry → ℕ)
    (r : Routing) (es : List RoutingEntry)
    → r.irq_routing ≡ some es
    → r.has_irq_routing ≢ some false
    → ((t : List RoutingEntry) → update_route t ≡ 0)
    → length es ≤ r.allocated_gsis
    → let es' = es ++ (route_of msg needs_devid device_id r.next_gsi ∷ []) in
      (r' : Routing) × (add_msix_route true true needs_devid msg device_id update_route r
        ≡ some (ok r.next_gsi, r'))
      × (r'.irq_routing ≡ some es')
      × (r'.next_gsi ≡ r.next_gsi + 1)
      × (r'.updates ≡ es' ∷ r.updates)
      × (length es' ≤ r'.allocated_gsis)
unfolding add_msix_route append_route allocate_routing_entry check_for_irq_routing
add_msix_route_lem needs_devid msg device_id update_route r es e has up fits =
    let es' = es ++ (route_of msg needs_devid device_id r.next_gsi ∷ []) in
    let len : length es' ≡ length es + 1 =
      omega (arith, length-append es (route_of msg needs_devid device_id r.next_gsi ∷ [])) in
    (
      record {
        irq_routing = some es';
        allocated_gsis =
            if ltb (length es) r.allocated_gsis
            then r.allocated_gsis
            else (length es + 1 + 31) / 32 * 32;
        next_gsi = r.next_gsi + 1;
        has_irq_routing = some true;
        updates = es' ∷ r.updates;
      },
      ground (arith, e, has, up es'),
      refl,
      refl,
      refl,
      ground (arith, len, fits),
    )

-- Where the kernel refuses the table, the route stays in it and its number is not counted up: the
-- next route gets the same number.
add_msix_route_refused :
    (needs_devid : Bool) (msg : MsiMsg) (device_id : ℕ) (update_route : List RoutingEntry → ℕ)
    (r : Routing) (es : List RoutingEntry) (code : ℕ)
    → r.irq_routing ≡ some es
    → r.has_irq_routing ≡ some true
    → code ≢ 0
    → ((t : List RoutingEntry) → update_route t ≡ code)
    → let es' = es ++ (route_of msg needs_devid device_id r.next_gsi ∷ []) in
      (r' : Routing) × (add_msix_route true true needs_devid msg device_id update_route r
        ≡ some (failed code, r'))
      × (r'.irq_routing ≡ some es')
      × (r'.next_gsi ≡ r.next_gsi)
unfolding add_msix_route append_route allocate_routing_entry check_for_irq_routing
add_msix_route_refused needs_devid msg device_id update_route r es code e has c up =
    let es' = es ++ (route_of msg needs_devid device_id r.next_gsi ∷ []) in
    (
      record r {
        irq_routing = some es';
        allocated_gsis =
            if ltb (length es) r.allocated_gsis
            then r.allocated_gsis
            else (length es + 1 + 31) / 32 * 32;
        updates = es' ∷ r.updates;
      },
      ground (arith, e, has, up es'),
      refl,
      refl,
    )

-- A failed allocation drops the table but keeps the larger size, so that the next route, for which
-- no allocation is tried, follows a null pointer.
add_msix_route_null :
    (needs_devid realloc : Bool) (msg : MsiMsg) (device_id : ℕ)
    (update_route : List RoutingEntry → ℕ) (r : Routing) (es : List RoutingEntry)
    → r.irq_routing ≡ some es
    → r.has_irq_routing ≡ some true
    → r.allocated_gsis ≤ length es
    → (r' : Routing) × (add_msix_route true false needs_devid msg device_id update_route r
        ≡ some (enomem, r'))
      × (add_msix_route true realloc needs_devid msg device_id update_route r' ≡ none)
unfolding add_msix_route append_route allocate_routing_entry check_for_irq_routing
add_msix_route_null needs_devid realloc msg device_id update_route r es e has full = (
  record r { irq_routing = none; allocated_gsis = (length es + 1 + 31) / 32 * 32 },
  ground (arith, e, has, full),
  ground (arith, has),
)

-- The entry already holds the message.
abbrev pub holds : MsiMsg → RoutingEntry → Bool
holds msg x =
    x.address_hi == msg.address_hi && x.address_lo == msg.address_lo && x.msg_data == msg.msg_data

-- The entry with the message.
abbrev pub with_msg : MsiMsg → RoutingEntry → RoutingEntry
with_msg msg x = record x {
  address_hi = msg.address_hi;
  address_lo = msg.address_lo;
  msg_data = msg.msg_data;
}

update_first-split :
    (gsi : ℕ) (msg : MsiMsg) (before : List RoutingEntry) (x : RoutingEntry)
    (after : List RoutingEntry)
    → All (λ y. gsi ≢ y.gsi) before
    → gsi ≡ x.gsi
    → update_first gsi msg (before ++ (x ∷ after))
      ≡ some (before ++ (with_msg msg x ∷ after), not (holds msg x))
unfolding update_first update_entry
update_first-split gsi msg [] x after a e = ground arith
update_first-split gsi msg (y ∷ ys) x after a e =
    ground (arith, update_first-split gsi msg ys x after a.1 e)

-- If an entry has the number, `irq__update_msix_route` writes the message into the first such entry,
-- leaves the others, and calls the kernel exactly if the entry held the message before: a change does not
-- reach the kernel.
pub update_msix_route_lem :
    (gsi : ℕ) (msg : MsiMsg) (r : Routing) (before : List RoutingEntry) (x : RoutingEntry)
    (after : List RoutingEntry)
    → r.irq_routing ≡ some (before ++ (x ∷ after))
    → All (λ y. gsi ≢ y.gsi) before
    → gsi ≡ x.gsi
    → let es' = before ++ (with_msg msg x ∷ after) in
      update_msix_route gsi msg r
      ≡ some (record r {
        irq_routing = some es';
        updates = if holds msg x then es' ∷ r.updates else r.updates;
      })
unfolding update_msix_route
update_msix_route_lem gsi msg r before x after e a g =
    rw (e, update_msix_route) (ground (arith, update_first-split gsi msg before x after a g))
