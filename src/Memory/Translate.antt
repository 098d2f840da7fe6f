-- ===== src/Memory/Translate.antt =====
-- The address translations of src/kvm.c, and the walk over the banks.
use Prim.Native.Nat.{bit_and}
use native.Mathlib.Decide.{dec_lt}
use kvmc.Prelude.{
  ℕ, ◌+◌, ◌-◌, ◌^◌, ◌≤◌, ◌<◌, ◌≡◌, refl, ◌≢◌, ◌⊎◌, ◌↔◌, List, [], ◌∷◌, Bool, true, false, not, ◌&&◌,
  ◌||◌, none, some, ltb, leb, ◌==◌, if◌then◌else◌, arith, All,
}
use kvmc.Memory.{
  MemBank, Mem, register_mem, guest_flat_to_host, host_to_guest_flat, for_each_mem_bank,
}
use kvmc.Memory.Register.{any_meets, register_mem_test}

-- Two banks lie apart in the host.
abbrev pub HostApart : MemBank → MemBank → Type 0
HostApart a b = (a.host_addr + a.size ≤ b.host_addr) ⊎ (b.host_addr + b.size ≤ a.host_addr)

-- No bank wraps in the guest, and the banks lie apart in the host.
abbrev pub IsMapped : List MemBank → Type 0
IsMapped [] = Unit
IsMapped (b ∷ bs) = (b.guest_phys_addr + b.size < 2 ^ 64) × All (HostApart b) bs × IsMapped bs

outside :
    (b : MemBank) (bs : List MemBank) (offset p : ℕ)
    → All (HostApart b) bs
    → IsMapped bs
    → guest_flat_to_host bs offset ≡ some p
    → (leb b.host_addr p && ltb p (b.host_addr + b.size)) ≡ false
unfolding guest_flat_to_host
outside b [] offset p a m e = ground arith
outside b (x ∷ xs) offset p a m e = ground (arith, outside b xs offset p a.1 m.2)

-- If no bank wraps in the guest and the banks lie apart in the host, a guest address that translates
-- to the host translates back to itself.
pub translate_roundtrip :
    (bs : List MemBank) (offset p : ℕ)
    → IsMapped bs
    → guest_flat_to_host bs offset ≡ some p
    → host_to_guest_flat bs p ≡ offset
unfolding guest_flat_to_host host_to_guest_flat
translate_roundtrip [] offset p m e = ground arith
translate_roundtrip (b ∷ bs) offset p m e = elim (dec_lt offset b.guest_phys_addr) [
  | yes below ↦ ground (arith, outside b bs offset p m.1 m.2, translate_roundtrip bs offset p m.2)
  | no at ↦ elim (dec_lt offset (b.guest_phys_addr + b.size)) [
    | yes inside ↦ ground arith
    | no above ↦ ground (arith, outside b bs offset p m.1 m.2, translate_roundtrip bs offset p m.2)
  ]
]

-- After a range of RAM or device memory that does not wrap and meets no bank is registered, with
-- memory given and a kernel that takes it, its addresses translate
-- into the given host memory, and all others as before.
register_mem-translates :
    (s : Mem) (g n host type offset : ℕ)
    → type ≢ 4
    → g + n < 2 ^ 64
    → any_meets g n s.mem_banks ≡ false
    → guest_flat_to_host (register_mem g n host type true none s).1.mem_banks offset ≡ (
        if leb g offset && ltb offset (g + n)
        then some (host + (offset - g))
        else guest_flat_to_host s.mem_banks offset)
unfolding guest_flat_to_host
register_mem-translates s g n host type offset t h free =
    rw (register_mem_test s g n host type t, free) (ground arith)

-- Some bank is of a type that the walk looks for.
pub any_of_type : List MemBank → ℕ → Bool
any_of_type [] type = false
any_of_type (b ∷ bs) type = (type == 7) || not (bit_and b.type type == 0) || any_of_type bs type

for_each-some {ℓ} :
    {D : Type ℓ} (bs : List MemBank) (type : ℕ) (fun : MemBank → D → ℕ × D) (d : D) (r : ℕ)
    → (for_each_mem_bank bs type fun d (some r)).0 ≢ none
unfolding for_each_mem_bank
for_each-some [] type fun d r = ground arith
for_each-some (b ∷ bs) type fun d r =
    ground (arith, for_each-some bs type fun d r, for_each-some bs type fun (fun b d).1 (fun b d).0)

-- `kvm__for_each_mem_bank` answers a value that nothing has set exactly if no bank is of the given
-- type, whatever the callback does.
for_each_unset {ℓ} :
    {D : Type ℓ} (bs : List MemBank) (type : ℕ) (fun : MemBank → D → ℕ × D) (d : D)
    → ((for_each_mem_bank bs type fun d none).0 ≡ none) ↔ (any_of_type bs type ≡ false)
unfolding for_each_mem_bank any_of_type
for_each_unset [] type fun d = (λ e. refl, λ e. refl)
for_each_unset (b ∷ bs) type fun d = (
  λ e.
      ground (
        arith,
        (for_each_unset bs type fun d).0,
        for_each-some bs type fun (fun b d).1 (fun b d).0,
      ),
  λ e. ground (arith, (for_each_unset bs type fun d).1),
)
