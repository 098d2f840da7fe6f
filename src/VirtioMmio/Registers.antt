-- ===== src/VirtioMmio/Registers.antt =====
-- The registers of hw/virtio/mmio.c as the guest sees them.
use kvmc.Prelude.{
  ℕ, zero, suc, ◌+◌, ◌-◌, ◌%◌, ◌^◌, ◌≡◌, refl, ◌∙◌, List, [], ◌∷◌, Bool, true, false, Option, none,
  some, ltb, leb, ◌==◌, if◌then◌else◌, length, set, arith, Bool-cases, inl, inr, length-set,
}
use kvmc.Data.{Data, read32}
use kvmc.Ioeventfd.{Answers, Result, success, failure}
use kvmc.VirtioMmio.{
  Hdr, Vmmio, Device, Outcome, done, fault, device_fault, calls_device, read_register, Register,
  reads, not_read, Told, tell, tell_eventfd, set_guest_features, notify_vq_eventfd, init_ioeventfd,
  write_config, device_specific, switch, set_status, write_cases, set_pfn, config_in, config_out,
  mmio_callback,
}

-- What identifies a device.
abbrev pub identity : Hdr → ℕ × ℕ × ℕ × ℕ × ℕ
identity h = (h.magic, h.version, h.device_id, h.vendor_id, h.queue_num_max)

-- One state has the other's identity, place, interrupt, number of queues and size of configuration.
abbrev pub Kept : Vmmio → Vmmio → Type 0
Kept m m' =
    (identity m'.hdr ≡ identity m.hdr)
    × (m'.addr ≡ m.addr)
    × (m'.irq ≡ m.irq)
    × (length m'.ioeventfds ≡ length m.ioeventfds)
    × (length m'.config ≡ length m.config)

abbrev pub Keeps : Vmmio → Outcome → Type 0
Keeps m fault = Unit
Keeps m device_fault = Unit
Keeps m (done d m') = Kept m m'

same : (m : Vmmio) → Kept m m
same m = (refl, refl, refl, refl, refl)

-- All cases of a `switch` do.
abbrev AllKeep : Vmmio → List (ℕ × Outcome) → Type 0
AllKeep m [] = Unit
AllKeep m ((i, o) ∷ cases) = Keeps m o × AllKeep m cases

abbrev SameLength : List ℕ → Option (List ℕ) → Type 0
SameLength config none = Unit
SameLength config (some after) = length after ≡ length config

SameLength-set :
    (config : List ℕ) (k v : ℕ) (o : Option (List ℕ))
    → SameLength (set config k v) o
    → SameLength config o
SameLength-set config k v none h = tt
SameLength-set config k v (some after) h = h ∙ length-set config k v

write_config-SameLength :
    (d : Data) (offset i n : ℕ) (config : List ℕ)
    → SameLength config (write_config d offset i n config)
unfolding write_config
write_config-SameLength d offset i zero config = refl
write_config-SameLength d offset i (suc n) config =
    let v = (d 0 + i) % 256 in
    elim (Bool-cases (ltb (offset + i) (length config))) [
      | inl inside ↦
          rw (write_config, inside)
            (SameLength-set config (offset + i) v _
              (write_config-SameLength d offset (i + 1) n (set config (offset + i) v)))
      | inr outside ↦ rw (write_config, outside) tt
    ]

Keeps-calls_device :
    (dev : Device) (t : Told) (m : Vmmio) (o : Outcome) → Keeps m o → Keeps m (calls_device dev t o)
Keeps-calls_device dev t m o h = elim (Bool-cases (dev.stays_inside t)) [
  | inl inside ↦ rw inside h
  | inr outside ↦ rw outside tt
]

Keeps-read_register : (r : Register) (d : Data) (m : Vmmio) → Keeps m (read_register r d m)
unfolding read_register
Keeps-read_register not_read d m = same m
Keeps-read_register (reads none) d m = tt
Keeps-read_register (reads (some v)) d m = same m

module _ (dev : Device) (has_pio : Bool) (a : Answers) (fd : ℕ) where
  Keeps-switch :
      (m : Vmmio) (n : ℕ) (cases : List (ℕ × Outcome)) (otherwise : Outcome)
      → AllKeep m cases
      → Keeps m otherwise
      → Keeps m (switch n cases otherwise)
  Keeps-switch m n [] otherwise h k = k
  Keeps-switch m n ((i, o) ∷ cases) otherwise h k =
      elim (n == i) as (λ b. Keeps m (if b then o else switch n cases otherwise)) [
        | true ↦ h.0
        | false ↦ Keeps-switch m n cases otherwise h.1 k
      ]

  tell_eventfd-Kept : (r : Result) (vq : ℕ) (m : Vmmio) → Kept m (tell_eventfd dev r fd vq m)
  unfolding tell_eventfd
  tell_eventfd-Kept (failure n) vq m = same m
  tell_eventfd-Kept success vq m =
      elim dev.has_notify_eventfd
        as (λ b. Kept m (if b then tell (notify_vq_eventfd vq fd) m else m)) [
          | true ↦ same (tell (notify_vq_eventfd vq fd) m)
          | false ↦ same m
        ]

  set_pfn-Keeps : (d : Data) (m : Vmmio) → Keeps m (set_pfn dev has_pio a fd d m)
  unfolding set_pfn init_ioeventfd
  set_pfn-Keeps d m = elim (Bool-cases (ltb m.hdr.queue_sel (length m.ioeventfds))) [
    | inl inside ↦
        let k =
          tell_eventfd-Kept _ m.hdr.queue_sel
            (record m { ioeventfds = set m.ioeventfds _ _; events = _ }) in
        rw (set_pfn, init_ioeventfd, inside)
          (Keeps-calls_device dev _ m _
            (k.0, k.1, k.2, k.3 ∙ length-set m.ioeventfds m.hdr.queue_sel m.hdr.queue_sel, k.4))
    | inr outside ↦ rw (set_pfn, init_ioeventfd, outside) tt
  ]

  set_status-Kept : (v : ℕ) (m : Vmmio) → Kept m (set_status dev v m)
  unfolding set_status
  set_status-Kept v m = ground arith

  set_features-Kept :
      (v : ℕ) (m : Vmmio)
      → Kept m (if m.hdr.guest_features_sel == 0 then tell (set_guest_features v) m else m)
  set_features-Kept v m =
      elim (m.hdr.guest_features_sel == 0)
        as (λ b. Kept m (if b then tell (set_guest_features v) m else m)) [
          | true ↦ same m
          | false ↦ same m
        ]

  write_cases-AllKeep : (d : Data) (m : Vmmio) → AllKeep m (write_cases dev has_pio a fd d m)
  unfolding write_cases
  write_cases-AllKeep d m = (
    same m,
    (
      same m,
      (
        same m,
        (
          set_status-Kept (read32 d) m,
          (
            set_features-Kept (read32 d) m,
            (
              same m,
              (
                Keeps-calls_device dev _ m (done d _) (same m),
                (
                  same m,
                  (
                    set_pfn-Keeps d m,
                    (Keeps-calls_device dev _ m (done d _) (same m), (same m, tt)),
                  ),
                ),
              ),
            ),
          ),
        ),
      ),
    ),
  )

  config_out-Keeps :
      (offset : ℕ) (d : Data) (m : Vmmio) → Keeps m (config_out dev has_pio a fd offset d m)
  unfolding config_out
  config_out-Keeps offset d m =
      Keeps-switch m offset (write_cases dev has_pio a fd d m) (done d m) (write_cases-AllKeep d m)
        (same m)

  Keeps-write :
      (d : Data) (m : Vmmio) (o : Option (List ℕ))
      → SameLength m.config o
      → Keeps m (elim o [ none ↦ fault | some config ↦ done d (record m { config = config }) ])
  Keeps-write d m none l = tt
  Keeps-write d m (some config) l = (refl, refl, refl, refl, l)

  Keeps-read : (m : Vmmio) (o : Option Data) → Keeps m (elim o [ none ↦ fault | some d ↦ done d m ])
  Keeps-read m none = tt
  Keeps-read m (some d) = same m

  -- An access that does not end in a fault changes neither what identifies the device, nor its
  -- place, its interrupt, and the sizes of its arrays.
  mmio_callback-Keeps :
      (addr : ℕ) (d : Data) (len : ℕ) (is_write : Bool) (m : Vmmio)
      → Keeps m (mmio_callback dev has_pio a fd addr d len is_write m)
  unfolding mmio_callback device_specific config_in
  mmio_callback-Keeps addr d len is_write m =
      let offset = (addr + 2 ^ 64 - m.addr) % 2 ^ 32 in
      elim (Bool-cases (leb 0x100 offset)) [
        | inl config ↦ elim (Bool-cases is_write) [
          | inl w ↦
              rw (mmio_callback, config, device_specific, w)
                (Keeps-write d m _ (write_config-SameLength d (offset - 0x100) 0 len m.config))
          | inr r ↦ rw (mmio_callback, config, device_specific, r) (Keeps-read m _)
        ]
        | inr register ↦ elim (Bool-cases is_write) [
          | inl w ↦ rw (mmio_callback, register, w) (config_out-Keeps offset d m)
          | inr r ↦ rw (mmio_callback, register, r) (Keeps-read_register _ d m)
        ]
      ]
