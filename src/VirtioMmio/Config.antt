-- ===== src/VirtioMmio/Config.antt =====
-- The accesses of hw/virtio/mmio.c that leave an array, and what a write to the configuration stores.
use kvmc.Prelude.{
  ℕ, zero, suc, ◌+◌, ◌-◌, ◌%◌, ◌^◌, ◌≤◌, ◌<◌, ◌≡◌, refl, sym, List, Bool, true, false, Option, none,
  some, ltb, leb, ◌&&◌, if◌then◌else◌, length, set, arith, Bool-cases, inl, inr, get_or, length-set,
  get_or-set_self, get_or-set_ne, ◌⊎◌,
}
use native.Mathlib.Decide.{ℕ_discrete}
use kvmc.Data.{Data}
use kvmc.Ioeventfd.{Answers}
use kvmc.VirtioMmio.{
  Vmmio, Device, done, init_vq, notify_vq, set_size_vq, write_config, device_specific,
  mmio_callback,
}

-- The byte at a place after a write of `n` bytes from byte `i` on.
abbrev pub stored : Data → ℕ → ℕ → ℕ → List ℕ → ℕ → ℕ
stored d offset i n config k =
    if leb (offset + i) k && ltb k (offset + i + n)
    then (d 0 + (k - offset)) % 256
    else get_or config k 0

-- What a write of `n` bytes does.
abbrev pub Written : Data → ℕ → ℕ → ℕ → List ℕ → Option (List ℕ) → Type 0
Written d offset i n config none = (0 < n) × (length config < offset + i + n)
Written d offset i n config (some after) =
    ((0 < n) → offset + i + n ≤ length config)
    × ((k : ℕ) → get_or after k 0 ≡ stored d offset i n config k)

Written-suc :
    (d : Data) (offset i n : ℕ) (config : List ℕ) (o : Option (List ℕ))
    → offset + i < length config
    → Written d offset (i + 1) n (set config (offset + i) ((d 0 + i) % 256)) o
    → Written d offset i (suc n) config o
Written-suc d offset i n config none inside w =
    (omega arith, omega (arith, w.1, length-set config (offset + i) ((d 0 + i) % 256)))
Written-suc d offset i n config (some after) inside w =
    let v = (d 0 + i) % 256 in
    (
      λ h. elim (Bool-cases (ltb 0 n)) [
        | inl more ↦ omega (arith, w.0 (ground arith), length-set config (offset + i) v)
        | inr last ↦ ground arith
      ],
      λ k. elim (ℕ_discrete k (offset + i)) [
        | yes here ↦
            rw here
              (ground (arith, w.1 (offset + i), get_or-set_self config (offset + i) v 0 inside))
        | no elsewhere ↦ ground (
          arith,
          w.1 k,
          get_or-set_ne config {i = offset + i} {j = k} v 0 (λ e. elsewhere (sym e)),
        )
      ],
    )

write_config-Written :
    (d : Data) (offset i n : ℕ) (config : List ℕ)
    → Written d offset i n config (write_config d offset i n config)
unfolding write_config
write_config-Written d offset i zero config = (λ h. absurd (omega arith), λ k. ground arith)
write_config-Written d offset i (suc n) config =
    elim (Bool-cases (ltb (offset + i) (length config))) [
      | inl inside ↦
          rw (write_config, inside)
            (Written-suc d offset i n config _ (ground arith)
              (write_config-Written d offset (i + 1) n (set config (offset + i) ((d 0 + i) % 256))))
      | inr outside ↦ rw (write_config, outside) (omega arith, ground arith)
    ]

written-cases :
    (d : Data) (offset len : ℕ) (config : List ℕ)
    → ((0 < len) × (length config < offset + 0 + len))
      ⊎ ((after : List ℕ) × (write_config d offset 0 len config ≡ some after)
          × ((k : ℕ) → get_or after k 0 ≡ stored d offset 0 len config k))
written-cases d offset len config =
    go (write_config d offset 0 len config) refl (write_config-Written d offset 0 len config)
  where
    go :
        (o : Option (List ℕ))
        → write_config d offset 0 len config ≡ o
        → Written d offset 0 len config o
        → ((0 < len) × (length config < offset + 0 + len))
          ⊎ ((after : List ℕ) × (write_config d offset 0 len config ≡ some after)
              × ((k : ℕ) → get_or after k 0 ≡ stored d offset 0 len config k))
    go none e w = inl w
    go (some after) e w = inr (after, e, w.1)

-- A read that goes on to the end, and one that does not.
abbrev pub Readable : ℕ → ℕ → List ℕ → Option Data → Type 0
Readable at n config none = (0 < n) × (length config < at + n)
Readable at n config (some d) = (0 < n) → at + n ≤ length config

-- The reads and the writes of a value for which the device leaves its arrays.
abbrev pub DeviceRead : Device → ℕ → Vmmio → Type 0
DeviceRead dev offset m =
    ((offset ≡ 0x40) × (dev.get_pfn_vq m.hdr.queue_sel ≡ none))
    ⊎ ((offset ≡ 0x34) × (dev.get_size_vq m.hdr.queue_sel ≡ none))

abbrev pub DeviceWrite : Device → ℕ → ℕ → Vmmio → Type 0
DeviceWrite dev offset v m =
    ((offset ≡ 0x38) × (dev.stays_inside (set_size_vq m.hdr.queue_sel v) ≡ false))
    ⊎ ((offset ≡ 0x50) × (dev.stays_inside (notify_vq v) ≡ false))
    ⊎ ((offset ≡ 0x40)
        × (m.hdr.queue_sel < length m.ioeventfds)
        × (dev.stays_inside (init_vq m.hdr.queue_sel m.hdr.guest_page_size m.hdr.queue_align v)
            ≡ false))

module _ (dev : Device) (has_pio : Bool) (a : Answers) (fd : ℕ) where
  -- A write to the configuration that stays inside it stores, at each place that it reaches, the
  -- first byte of the access plus the place's distance from the offset, as a byte, and leaves all
  -- other bytes.
  pub config_write_lem :
      (addr : ℕ) (d : Data) (len : ℕ) (m : Vmmio)
      → let offset = (addr + 2 ^ 64 - m.addr) % 2 ^ 32 in
        0x100 ≤ offset
        → offset - 0x100 + len ≤ length m.config
        → (after : List ℕ) × (mmio_callback dev has_pio a fd addr d len true m
            ≡ done d (record m { config = after }))
          × ((k : ℕ) → get_or after k 0 ≡ stored d (offset - 0x100) 0 len m.config k)
  unfolding mmio_callback device_specific
  config_write_lem addr d len m at inside =
      let offset = (addr + 2 ^ 64 - m.addr) % 2 ^ 32 in
      let behind : leb 0x100 offset ≡ true = ground arith in
      elim (written-cases d (offset - 0x100) len m.config) [
        | inl (few, out) ↦ absurd (omega arith)
        | inr (after, e, bytes) ↦
            (after, rw (mmio_callback, behind, device_specific, e) refl, bytes)
      ]
