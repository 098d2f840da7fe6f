-- ===== src/Irq.antt =====
-- src/irq.c: the table of interrupt routes for MSI-X. The kernel's answers are arguments: whether it
-- supports routing, whether `realloc` gives memory, and what `update_route` returns for a table (0
-- or a failure). `none` for a result is a null pointer that the code follows.
pub mod Routes
mod Tests
use kvmc.Prelude.{
  ℕ, ◌+◌, ◌*◌, ◌/◌, ◌%◌, List, [], ◌∷◌, ◌++◌, Bool, true, false, not, ◌&&◌, ◌||◌, Option, none,
  some, ltb, ◌==◌, if◌then◌else◌, length,
}

-- `struct kvm_irq_routing_entry` of type MSI.
pub record RoutingEntry : Type 0 where
  pub gsi : ℕ
  pub flags : ℕ
  pub address_hi : ℕ
  pub address_lo : ℕ
  pub msg_data : ℕ
  pub devid : ℕ

-- `struct msi_msg`
pub record MsiMsg : Type 0 where
  pub address_lo : ℕ
  pub address_hi : ℕ
  pub msg_data : ℕ

pub data Status : Type 0 where
  ok : ℕ → Status
  enxio enomem : Status
  failed : ℕ → Status

-- The file's variables. `irq_routing` holds the first `nr` entries; `has_irq_routing` is not known
-- before the first query; `updates` are the tables that `update_route` was called with, newest
-- first.
pub record Routing : Type 0 where
  pub irq_routing : Option (List RoutingEntry)
  pub allocated_gsis : ℕ
  pub next_gsi : ℕ
  pub has_irq_routing : Option Bool
  pub updates : List (List RoutingEntry)

-- `irq__allocate_routing_entry`; a number of entries is rounded up to 32.
pub allocate_routing_entry : Bool → Routing → Status × Routing
allocate_routing_entry realloc r =
    let nr_entries : ℕ = elim r.irq_routing [ none ↦ 0 | some es ↦ length es ] in
    let grown = record r { allocated_gsis = (nr_entries + 1 + 31) / 32 * 32 } in
    if ltb nr_entries r.allocated_gsis
    then (ok 0, r)
    else (if realloc
        then (
          ok 0,
          record grown { irq_routing = elim r.irq_routing [ none ↦ some [] | some es ↦ some es ] },
        )
        else (enomem, record grown { irq_routing = none }))

-- `check_for_irq_routing`
pub check_for_irq_routing : Bool → Routing → Bool × Routing
check_for_irq_routing supported r = elim r.has_irq_routing [
  | none ↦ (supported, record r { has_irq_routing = some supported })
  | some known ↦ (known, r)
]

-- The entry that `irq__add_msix_route` fills in; KVM_MSI_VALID_DEVID is 1.
abbrev pub route_of : MsiMsg → Bool → ℕ → ℕ → RoutingEntry
route_of msg needs_devid device_id gsi = record {
  gsi = gsi;
  flags = if needs_devid then 1 else 0;
  address_hi = msg.address_hi;
  address_lo = msg.address_lo;
  msg_data = msg.msg_data;
  devid = if needs_devid then device_id else 0;
}

-- The part of `irq__add_msix_route` behind the allocation.
append_route :
    Status × Routing → MsiMsg → Bool → ℕ → (List RoutingEntry → ℕ) → Option (Status × Routing)
append_route (ok n, r) msg needs_devid device_id update_route = elim r.irq_routing [
  | none ↦ none
  | some es ↦
      let es' = es ++ (route_of msg needs_devid device_id r.next_gsi ∷ []) in
      let told = record r { irq_routing = some es'; updates = es' ∷ r.updates } in
      if update_route es' == 0
      then some (ok r.next_gsi, record told { next_gsi = r.next_gsi + 1 })
      else some (failed (update_route es'), told)
]
append_route (enxio, r) msg needs_devid device_id update_route = some (enxio, r)
append_route (enomem, r) msg needs_devid device_id update_route = some (enomem, r)
append_route (failed e, r) msg needs_devid device_id update_route = some (failed e, r)

-- `irq__add_msix_route`
pub add_msix_route :
    (supported realloc needs_devid : Bool)
    → MsiMsg
    → ℕ
    → (List RoutingEntry → ℕ)
    → Routing
    → Option (Status × Routing)
unfolding append_route
add_msix_route supported realloc needs_devid msg device_id update_route r =
    let (has, r') = check_for_irq_routing supported r in
    if not has
    then some (enxio, r')
    else append_route (allocate_routing_entry realloc r') msg needs_devid device_id update_route

-- `update_data` on the three words: the entry, and whether one of them changed.
pub update_entry : MsiMsg → RoutingEntry → RoutingEntry × Bool
update_entry msg e = (
  record e { address_hi = msg.address_hi; address_lo = msg.address_lo; msg_data = msg.msg_data },
  not (e.address_hi == msg.address_hi)
      || not (e.address_lo == msg.address_lo)
      || not (e.msg_data == msg.msg_data),
)

-- The search of `irq__update_msix_route` and the update of the entry found: the table, and whether
-- the entry changed, or `none` if no entry has the number.
pub update_first : ℕ → MsiMsg → List RoutingEntry → Option (List RoutingEntry × Bool)
update_first gsi msg [] = none
update_first gsi msg (e ∷ es) =
    let rest : Option (List RoutingEntry × Bool) = elim (update_first gsi msg es) [
      | none ↦ none
      | some (es', changed) ↦ some (e ∷ es', changed)
    ] in
    if gsi == e.gsi
    then (let (e', changed) = update_entry msg e in some (e' ∷ es, changed))
    else rest

-- `irq__update_msix_route`, where the ioctl succeeds (it ends the program otherwise).
pub update_msix_route : ℕ → MsiMsg → Routing → Option Routing
update_msix_route gsi msg r = elim r.irq_routing [
  | none ↦ none
  | some es ↦ elim (update_first gsi msg es) [
    | none ↦ some r
    | some (es', changed) ↦
        let written = record r { irq_routing = some es' } in
        some (if changed then written else record written { updates = es' ∷ r.updates })
  ]
]
