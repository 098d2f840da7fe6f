-- ===== src/Memory/Tests.antt =====
-- The theorems of the memory banks of src/kvm.c at a small machine.
use kvmc.Prelude.{◌≡◌, ◌↔◌, refl, inl, [], ◌∷◌, none, true, arith}
use kvmc.Devices.{err, einval}
use kvmc.Memory.{MemBank, Mem, register_mem, guest_flat_to_host, host_to_guest_flat}
use kvmc.Memory.Register.{any_meets, Shares, register_mem_lem}
use kvmc.Memory.Translate.{translate_roundtrip}

abbrev ram : MemBank
ram = record { guest_phys_addr = 0x1000; host_addr = 0x7000; size = 0x1000; type = 1 }

abbrev hole : MemBank
hole = record { guest_phys_addr = 0; host_addr = 0; size = 0x100; type = 4 }

abbrev machine : Mem
machine = record { mem_banks = hole ∷ ram ∷ []; mem_slots = 1 }

register_mem_lem_example :
    ((any_meets 0x1800 0x1000 machine.mem_banks ≡ true) ↔ Shares 0x1800 0x1000 machine.mem_banks)
    × (register_mem 0x1800 0x1000 0x9000 1 true none machine ≡ (err einval, machine))
unfolding any_meets
register_mem_lem_example =
    register_mem_lem machine 0x1800 0x1000 0x9000 1 (omega arith) (omega arith, omega arith)
      ((omega arith, omega arith), ((omega arith, omega arith), tt))

translate_roundtrip_example : host_to_guest_flat (hole ∷ ram ∷ []) 0x7010 ≡ 0x1010
unfolding guest_flat_to_host
translate_roundtrip_example =
    translate_roundtrip (hole ∷ ram ∷ []) 0x1010 0x7010
      (omega arith, (inl (omega arith), tt), (omega arith, tt, tt)) refl
