-- ===== src/Memory.antt =====
-- The guest's memory banks of src/kvm.c: registration, the translation of addresses, and the walk
-- over the banks. Pointers into the host are numbers; `none` is NULL. `malloc` answers whether
-- memory was given, and the ioctl KVM_SET_USER_MEMORY_REGION `none` or the `errno` of a failure.
pub mod Translate
pub mod Register
mod Tests
use kvmc.Prelude.{
  ℕ, suc, ◌+◌, ◌-◌, ◌%◌, ◌^◌, ◌≤◌, List, [], ◌∷◌, ◌++◌, Bool, true, false, not, ◌&&◌, ◌||◌, Option,
  none, some, ltb, leb, ◌==◌, if◌then◌else◌, min,
}
use Prim.Native.Nat.{max, bit_and}
use kvmc.Devices.{IntResult, ok, err, einval, enomem, os}

-- `struct kvm_mem_bank`; `type` is 1 for RAM, 2 for device memory, 4 for a reserved range.
pub record MemBank : Type 0 where
  pub guest_phys_addr : ℕ
  pub host_addr : ℕ
  pub size : ℕ
  pub type : ℕ

-- The fields of `struct kvm` that the banks need.
pub record Mem : Type 0 where
  pub mem_banks : List MemBank
  pub mem_slots : ℕ

abbrev pub u64 : ℕ → ℕ
u64 n = n % 2 ^ 64

-- The last address of a range, in 64 bits.
abbrev pub last_of : ℕ → ℕ → ℕ
last_of start size = u64 (start + size + (2 ^ 64 - 1))

-- The test of the loop: the range and the bank share an address.
abbrev pub meets : ℕ → ℕ → MemBank → Bool
meets guest_phys size bank = not (
    ltb (last_of bank.guest_phys_addr bank.size) guest_phys
    || ltb (last_of guest_phys size) bank.guest_phys_addr)

-- The bank that a reserved range is merged into.
abbrev pub merge : ℕ → ℕ → MemBank → MemBank
merge guest_phys size bank =
    let low = min bank.guest_phys_addr guest_phys in
    let high = max (last_of bank.guest_phys_addr bank.size) (last_of guest_phys size) in
    record bank { guest_phys_addr = low; size = u64 (high + 2 ^ 64 - low + 1) }

-- How the loop of `kvm__register_mem` ends: with an overlap, or through, with the banks as they are
-- then, and whether one of them has taken the range in.
pub data Scan : Type 0 where
  clash : List MemBank → Scan
  through : List MemBank → Bool → Scan

-- The banks behind the loop, each with the mark of the last merge.
abbrev pub banks_of : List (Bool × MemBank) → List MemBank
banks_of [] = []
banks_of ((m, b) ∷ bs) = b ∷ banks_of bs

-- "This is at least the second merge, remove previous result."
abbrev pub drop_merged : List (Bool × MemBank) → List (Bool × MemBank)
drop_merged [] = []
drop_merged ((m, b) ∷ bs) = if m then drop_merged bs else (m, b) ∷ drop_merged bs

-- The loop of `kvm__register_mem`.
pub scan : List MemBank → ℕ → ℕ → ℕ → List (Bool × MemBank) → Bool → Scan
scan [] guest_phys size type seen merged = through (banks_of seen) merged
scan (bank ∷ banks) guest_phys size type seen merged =
    let skip = scan banks guest_phys size type (seen ++ ((false, bank) ∷ [])) merged in
    let grown = merge guest_phys size bank in
    let join =
      scan banks grown.guest_phys_addr grown.size type (drop_merged seen ++ ((true, grown) ∷ []))
        true in
    if not (meets guest_phys size bank)
    then skip
    else (if bank.type == 4 && type == 4 then join else clash (banks_of seen ++ (bank ∷ banks)))

-- Behind the loop.
finish : Scan → ℕ → ℕ → ℕ → ℕ → Bool → Option ℕ → Mem → IntResult × Mem
finish (clash banks) guest_phys size host type malloc ioctl s =
    (err einval, record s { mem_banks = banks })
finish (through banks true) guest_phys size host type malloc ioctl s =
    (ok 0, record s { mem_banks = banks })
finish (through banks false) guest_phys size host type malloc ioctl s =
    let bank : MemBank = record {
      guest_phys_addr = guest_phys;
      host_addr = host;
      size = size;
      type = type;
    } in
    if not malloc
    then (err enomem, record s { mem_banks = banks })
    else (if type == 4
        then (ok 0, record s { mem_banks = bank ∷ banks })
        else (let slots = (s.mem_slots + 1) % 2 ^ 32 in
            elim ioctl [
              | none ↦ (ok 0, record { mem_banks = bank ∷ banks; mem_slots = slots })
              | some errno ↦ (err (os errno), record { mem_banks = banks; mem_slots = slots })
            ]))

-- `kvm__register_mem`
pub register_mem : ℕ → ℕ → ℕ → ℕ → Bool → Option ℕ → Mem → IntResult × Mem
unfolding finish
register_mem guest_phys size host type malloc ioctl s =
    finish (scan s.mem_banks guest_phys size type [] false) guest_phys size host type malloc ioctl s

-- `guest_flat_to_host`
unfoldable pub guest_flat_to_host : List MemBank → ℕ → Option ℕ
guest_flat_to_host [] offset = none
guest_flat_to_host (bank ∷ banks) offset =
    let rest = guest_flat_to_host banks offset in
    if leb bank.guest_phys_addr offset && ltb offset (u64 (bank.guest_phys_addr + bank.size))
    then some (bank.host_addr + (offset - bank.guest_phys_addr))
    else rest

-- `host_to_guest_flat`, which answers 0 for an address in no bank.
pub host_to_guest_flat : List MemBank → ℕ → ℕ
host_to_guest_flat [] ptr = 0
host_to_guest_flat (bank ∷ banks) ptr =
    let rest = host_to_guest_flat banks ptr in
    if leb bank.host_addr ptr && ltb ptr (bank.host_addr + bank.size)
    then u64 (bank.guest_phys_addr + (ptr - bank.host_addr))
    else rest

-- `kvm__for_each_mem_bank` with a callback on a state; `none` is the value of `ret` where no call
-- has set it. KVM_MEM_TYPE_ALL is 7.
pub for_each_mem_bank {ℓ} :
    {D : Type ℓ} → List MemBank → ℕ → (MemBank → D → ℕ × D) → D → Option ℕ → Option ℕ × D
for_each_mem_bank [] type fun d ret = (ret, d)
for_each_mem_bank (bank ∷ banks) type fun d ret =
    let skip = for_each_mem_bank banks type fun d ret in
    let (r, d') = fun bank d in
    let go = for_each_mem_bank banks type fun d' (some r) in
    if not (type == 7) && bit_and bank.type type == 0
    then skip
    else (if r == 0 then go else (some r, d'))
