-- ===== src/Memory/Register.antt =====
-- When `kvm__register_mem` refuses a range, and what it leaves behind.
use kvmc.Prelude.{
  ℕ, ◌+◌, ◌%◌, ◌^◌, ◌≡◌, refl, ◌≢◌, List, [], ◌∷◌, ◌++◌, Bool, true, false, ◌||◌, Option, none, ◌<◌,
  ◌≤◌, ◌↔◌, ◌⊎◌, inl, inr, Bool-cases, if◌then◌else◌, arith, append_assoc, append-nil, ap,
}
use native.Mathlib.Decide.{dec_lt}
use kvmc.Devices.{ok, err, einval}
use kvmc.Memory.{MemBank, Mem, meets, merge, clash, through, banks_of, scan, finish, register_mem}

-- The test of the loop holds for one of the banks.
unfoldable pub any_meets : ℕ → ℕ → List MemBank → Bool
any_meets g n [] = false
any_meets g n (b ∷ bs) = meets g n b || any_meets g n bs

banks_of-append :
    (xs : List (Bool × MemBank)) (m : Bool) (b : MemBank)
    → banks_of (xs ++ ((m, b) ∷ [])) ≡ banks_of xs ++ (b ∷ [])
banks_of-append [] m b = refl
banks_of-append ((m', x) ∷ xs) m b = ap (λ z. x ∷ z) (banks_of-append xs m b)

scan_plain :
    (banks : List MemBank) (g n type : ℕ) (seen : List (Bool × MemBank)) (merged : Bool)
    → type ≢ 4
    → scan banks g n type seen merged ≡ (
        if any_meets g n banks
        then clash (banks_of seen ++ banks)
        else through (banks_of seen ++ banks) merged)
unfolding scan any_meets
scan_plain [] g n type seen merged h = rw append-nil
scan_plain (b ∷ bs) g n type seen merged h = ground (
  arith,
  scan_plain bs g n type (seen ++ ((false, b) ∷ [])) merged h,
  banks_of-append seen false b,
  append_assoc (banks_of seen) (b ∷ []) bs,
)

-- A range of at least one byte that ends within 64 bits.
abbrev pub IsRange : ℕ → ℕ → Type 0
IsRange start size = (0 < size) × (start + size ≤ 2 ^ 64)

-- An address of a range.
abbrev pub Covers : ℕ → ℕ → ℕ → Type 0
Covers start size a = (start ≤ a) × (a < start + size)

-- Some address is in the range and in one of the banks.
abbrev pub Shares : ℕ → ℕ → List MemBank → Type 0
Shares g n [] = ⊥
Shares g n (b ∷ bs) = ((a : ℕ) × Covers g n a × Covers b.guest_phys_addr b.size a) ⊎ Shares g n bs

abbrev pub AreRanges : List MemBank → Type 0
AreRanges [] = Unit
AreRanges (b ∷ bs) = IsRange b.guest_phys_addr b.size × AreRanges bs

meets-Covers :
    (g n : ℕ) (b : MemBank)
    → IsRange g n
    → IsRange b.guest_phys_addr b.size
    → (meets g n b ≡ true) ↔ ((a : ℕ) × Covers g n a × Covers b.guest_phys_addr b.size a)
meets-Covers g n b r s = (
  λ m. elim (dec_lt g b.guest_phys_addr) [
    | yes low ↦ (b.guest_phys_addr, (omega arith, ground arith), (omega arith, omega arith))
    | no high ↦ (g, (omega arith, omega arith), (omega arith, ground arith))
  ],
  λ (a, c, d). ground arith,
)

any_meets-Shares :
    (g n : ℕ) (banks : List MemBank)
    → IsRange g n
    → AreRanges banks
    → (any_meets g n banks ≡ true) ↔ Shares g n banks
unfolding any_meets
any_meets-Shares g n [] r h = (λ m. ground arith, λ m. absurd m)
any_meets-Shares g n (b ∷ bs) r h =
    let here = meets-Covers g n b r h.0 in
    let there = any_meets-Shares g n bs r h.1 in
    (
      λ m. elim (Bool-cases (meets g n b)) [
        | inl hit ↦ inl (here.0 hit)
        | inr miss ↦ inr (there.0 (ground (arith, miss)))
      ],
      λ m. elim m [ inl x ↦ ground (arith, here.1 x) | inr x ↦ ground (arith, there.1 x) ],
    )

-- A registration by the test of the loop.
pub register_mem_test :
    (s : Mem) (g n host type : ℕ)
    → type ≢ 4
    → register_mem g n host type true none s ≡ (
        if any_meets g n s.mem_banks then (err einval, s) else (
          ok 0,
          record {
            mem_banks =
                record { guest_phys_addr = g; host_addr = host; size = n; type = type }
                ∷ s.mem_banks;
            mem_slots = (s.mem_slots + 1) % 2 ^ 32;
          },
        ))
unfolding register_mem finish
register_mem_test s g n host type h = ground (arith, scan_plain s.mem_banks g n type [] false h)

-- With memory given and a kernel that takes the region, and where the range and the banks have at
-- least one byte and end within 64 bits: a range of RAM or device memory is refused with EINVAL, and
-- nothing changes, exactly if some address is in it and in a bank; else its bank is put before the
-- others, which stay as they are, and one more slot is used.
pub register_mem_lem :
    (s : Mem) (g n host type : ℕ)
    → type ≢ 4
    → IsRange g n
    → AreRanges s.mem_banks
    → ((any_meets g n s.mem_banks ≡ true) ↔ Shares g n s.mem_banks)
      × (register_mem g n host type true none s ≡ (
          if any_meets g n s.mem_banks then (err einval, s) else (
            ok 0,
            record {
              mem_banks =
                  record { guest_phys_addr = g; host_addr = host; size = n; type = type }
                  ∷ s.mem_banks;
              mem_slots = (s.mem_slots + 1) % 2 ^ 32;
            },
          )))
register_mem_lem s g n host type h range ranges =
    (any_meets-Shares g n s.mem_banks range ranges, register_mem_test s g n host type h)

-- A reserved range that meets a reserved bank and, merged with it, meets the next bank, which is
-- not reserved, is refused with EINVAL, but the first bank stays grown: it now shares addresses
-- with the next.
register_mem_torn :
    (s : Mem) (g n host : ℕ) (malloc : Bool) (ioctl : Option ℕ) (a b : MemBank)
    (rest : List MemBank)
    → s.mem_banks ≡ a ∷ b ∷ rest
    → a.type ≡ 4
    → meets g n a ≡ true
    → b.type ≢ 4
    → meets (merge g n a).guest_phys_addr (merge g n a).size b ≡ true
    → register_mem g n host 4 malloc ioctl s
      ≡ (err einval, record s { mem_banks = merge g n a ∷ b ∷ rest })
unfolding register_mem finish scan
register_mem_torn s g n host malloc ioctl a b rest e ta ma tb mb = ground arith
