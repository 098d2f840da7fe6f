-- ===== src/Interval/Tests.antt =====
-- The theorems of the interval tree at concrete trees.
use kvmc.Prelude.{ℕ, ◌≡◌, refl, none, some, arith, if◌then◌else◌}
use kvmc.RbTree.{Tree, leaf, node, black, red}
use kvmc.Interval.{IntNode, IsOrdered, search_single, contains, insert, int_erase, link}
use kvmc.Interval.Spine.{spine_balance}
use kvmc.Interval.Insert.{insert-search}
use kvmc.Interval.Erase.{erase-search}

abbrev uart : IntNode ℕ
uart = record { low = 0x3f8; high = 0x400; payload = 1 }

abbrev keyboard : IntNode ℕ
keyboard = record { low = 0x60; high = 0x62; payload = 2 }

abbrev rtc : IntNode ℕ
rtc = record { low = 0x70; high = 0x71; payload = 3 }

abbrev two_ports : Tree (IntNode ℕ)
two_ports = node black (node red leaf keyboard leaf) uart leaf

abbrev three_ports : Tree (IntNode ℕ)
three_ports = node black (node red leaf keyboard (node red leaf rtc leaf)) uart leaf

insert-search_example :
    IsOrdered three_ports
    × ((p : ℕ)
        → search_single three_ports p
          ≡ (if contains rtc p then some rtc else search_single two_ports p))
unfolding insert link
insert-search_example =
    insert-search spine_balance two_ports rtc (omega arith) (omega arith) (omega arith) refl

erase-search_example :
    IsOrdered (int_erase spine_balance two_ports keyboard)
    × ((q : ℕ)
        → search_single (int_erase spine_balance two_ports keyboard) q
          ≡ (if contains keyboard q then none else search_single two_ports q))
unfolding search_single
erase-search_example = erase-search spine_balance two_ports 0x61 keyboard (omega arith) refl
