-- ===== src/Irq/Tests.antt =====
-- The theorems of src/irq.c at a small table.
use kvmc.Prelude.{◌≡◌, refl, [], ◌∷◌, true, false, some}
use kvmc.Irq.{RoutingEntry, MsiMsg, Routing, route_of, update_msix_route}
use kvmc.Irq.Routes.{with_msg, update_msix_route_lem}

abbrev msg : MsiMsg
msg = record { address_lo = 0xfee00000; address_hi = 0; msg_data = 0x41 }

abbrev other : MsiMsg
other = record { address_lo = 0xfee00000; address_hi = 0; msg_data = 0x42 }

abbrev entry : RoutingEntry
entry = route_of msg false 0 24

abbrev routing : Routing
routing = record {
  irq_routing = some (entry ∷ []);
  allocated_gsis = 32;
  next_gsi = 25;
  has_irq_routing = some true;
  updates = [];
}

-- The same with no room left.
abbrev crowded : Routing
crowded = record routing { allocated_gsis = 1 }

update_msix_route_lem_example :
    update_msix_route 24 other routing
    ≡ some (record routing { irq_routing = some (with_msg other entry ∷ []) })
update_msix_route_lem_example = update_msix_route_lem 24 other routing [] entry [] refl tt refl
