-- ===== src/I8042/Invariant.antt =====
-- What every call of hw/i8042.c keeps: the queues are in bounds, and the status register tells
-- whether a byte waits and from which device.
use kvmc.Prelude.{
  get_elem?, sym, if◌then◌else◌, ltb, ◌||◌, ◌<◌, ◌⊎◌, ◌∙◌, refl, List, false, ◌^◌, Bool-cases,
  get_elem?-eq-get_or, ℕ, ◌+◌, ◌-◌, ◌%◌, ◌≤◌, ◌≡◌, ◌∷◌, Option, none, some, arith, ◌==◌, Bool, not,
  ◌&&◌, length, set, length-set, test_bit, length-replicate, Option-cases, inl, inr,
}
use kvmc.Data.{Data, read8, read32}
use native.Mathlib.Decide.{dec_lt, ℕ_discrete}
use mathlib.Core.Path.{subst}
use kvmc.I8042.{
  read_at, store_at, int_overflows, KbdState, Event, kbd_update_irq, mouse_queue, kbd_queue,
  kbd_write_command, kbd_read_data, mouse_command, kbd_write_data, kbd_reset, kbd_in, kbd_out,
  queue_size,
}

pub record IsValid (s : KbdState) : Type 0 where
  pub kq_size : length s.kq ≡ 128
  pub mq_size : length s.mq ≡ 128
  pub k_fits : s.kcount ≤ 128
  pub m_fits : s.mcount ≤ 128
  pub k_between : s.kwrite ≡ s.kread + s.kcount
  pub m_between : s.mwrite ≡ s.mread + s.mcount
  pub obf : test_bit s.status 0 ≡ not (s.kcount == 0 && s.mcount == 0)
  pub aux : test_bit s.status 5 ≡ (s.kcount == 0 && not (s.mcount == 0))
  pub is_defined : s.undefined ≡ false

-- All of `IsValid` but the status bits.
record Fits (s : KbdState) : Type 0 where
  kq_size : length s.kq ≡ 128
  mq_size : length s.mq ≡ 128
  k_fits : s.kcount ≤ 128
  m_fits : s.mcount ≤ 128
  k_between : s.kwrite ≡ s.kread + s.kcount
  m_between : s.mwrite ≡ s.mread + s.mcount
  is_defined : s.undefined ≡ false

-- A valid state whose running indices have room for some more bytes of the keyboard and the mouse.
pub record HasRoom (k m : ℕ) (s : KbdState) : Type 0 where
  pub valid : IsValid s
  pub k_room : s.kwrite + k < 2 ^ 31
  pub m_room : s.mwrite + m < 2 ^ 31

-- A store at an index modulo the size is inside the queue.
pub store_at_inside :
    (q : List ℕ) (i c : ℕ)
    → length q ≡ 128
    → store_at q (i % queue_size) c ≡ some (set q (i % queue_size) c)
store_at_inside q i c h = ground arith

kbd_update_irq-IsValid : (s : KbdState) → Fits s → IsValid (kbd_update_irq s)
unfolding kbd_update_irq
kbd_update_irq-IsValid s f = ground arith

pub mouse_queue-HasRoom :
    (c k m : ℕ) (s : KbdState) → HasRoom k (m + 1) s → HasRoom k m (mouse_queue c s)
unfolding mouse_queue kbd_update_irq
mouse_queue-HasRoom c k m s r =
    let v = r.valid in
    elim (Bool-cases (ltb s.mcount queue_size)) [
      | inl room ↦
          let inside = store_at_inside s.mq s.mwrite c v.mq_size in
          rw (mouse_queue, room, inside)
            (record {
              valid = kbd_update_irq-IsValid _ (record {
                kq_size = v.kq_size;
                mq_size = length-set s.mq (s.mwrite % queue_size) c ∙ v.mq_size;
                k_fits = v.k_fits;
                m_fits = ground arith;
                k_between = v.k_between;
                m_between = omega (arith, v.m_between);
                is_defined = ground (arith, v.is_defined, r.m_room);
              });
              k_room = r.k_room;
              m_room = omega (arith, r.m_room);
            })
      | inr full ↦
          rw (mouse_queue, full)
            (record { valid = v; k_room = r.k_room; m_room = omega (arith, r.m_room) })
    ]

pub kbd_queue-HasRoom :
    (c k m : ℕ) (s : KbdState) → HasRoom (k + 1) m s → HasRoom k m (kbd_queue c s)
unfolding kbd_queue kbd_update_irq
kbd_queue-HasRoom c k m s r =
    let v = r.valid in
    elim (Bool-cases (ltb s.kcount queue_size)) [
      | inl room ↦
          let inside = store_at_inside s.kq s.kwrite c v.kq_size in
          rw (kbd_queue, room, inside)
            (record {
              valid = kbd_update_irq-IsValid _ (record {
                kq_size = length-set s.kq (s.kwrite % queue_size) c ∙ v.kq_size;
                mq_size = v.mq_size;
                k_fits = ground arith;
                m_fits = v.m_fits;
                k_between = omega (arith, v.k_between);
                m_between = v.m_between;
                is_defined = ground (arith, v.is_defined, r.k_room);
              });
              k_room = omega (arith, r.k_room);
              m_room = r.m_room;
            })
      | inr full ↦
          rw (kbd_queue, full)
            (record { valid = v; k_room = omega (arith, r.k_room); m_room = r.m_room })
    ]

-- Room for fewer bytes.
less_room : (k m : ℕ) (s : KbdState) → HasRoom (k + 1) m s → HasRoom k m s
less_room k m s r = record { valid = r.valid; k_room = omega (arith, r.k_room); m_room = r.m_room }

kbd_write_command-IsValid :
    (val : ℕ) (s : KbdState) → HasRoom 1 1 s → IsValid (kbd_write_command val s)
unfolding kbd_write_command
kbd_write_command-IsValid val s r = ground (
  arith,
  r.valid,
  (kbd_queue-HasRoom s.mode 0 1 s r).valid,
  (mouse_queue-HasRoom 0 1 0 s r).valid,
)

mouse_command-IsValid : (val : ℕ) (s : KbdState) → HasRoom 0 3 s → IsValid (mouse_command val s)
unfolding mouse_command
mouse_command-IsValid val s r =
    let r1 = mouse_queue-HasRoom s.mstatus 0 2 s r in
    let r2 = mouse_queue-HasRoom s.mres 0 1 (mouse_queue s.mstatus s) r1 in
    let r3 = mouse_queue-HasRoom s.msample 0 0 (mouse_queue s.mres (mouse_queue s.mstatus s)) r2 in
    ground (arith, r.valid, (mouse_queue-HasRoom 0 0 2 s r).valid, r3.valid)

kbd_write_data-IsValid : (val : ℕ) (s : KbdState) → HasRoom 3 4 s → IsValid (kbd_write_data val s)
unfolding kbd_write_data
kbd_write_data-IsValid val s r =
    let ack = mouse_queue-HasRoom 0xfa 3 3 s r in
    let none_of_keys : HasRoom 0 3 (mouse_queue 0xfa s) =
      less_room 0 3 _ (less_room 1 3 _ (less_room 2 3 _ ack)) in
    let echo = mouse_queue-HasRoom (val % 256) 3 3 s r in
    ground (
      arith,
      r.valid,
      kbd_update_irq-IsValid (record s { mode = val % 256 }),
      (mouse_queue-HasRoom 0xfa 3 2 (mouse_queue (val % 256) s) echo).valid,
      mouse_command-IsValid val (mouse_queue 0xfa s) none_of_keys,
      three_keys-IsValid s r,
    )
  where
    three_keys-IsValid :
        (s : KbdState)
        → HasRoom 3 4 s
        → IsValid (kbd_update_irq (kbd_queue 0x41 (kbd_queue 0xab (kbd_queue 0xfa s))))
    three_keys-IsValid s r =
        let w =
          (kbd_queue-HasRoom 0x41 0 4 (kbd_queue 0xab (kbd_queue 0xfa s)) (
            kbd_queue-HasRoom 0xab 1 4 (kbd_queue 0xfa s)
              (kbd_queue-HasRoom 0xfa 2 4 s r))).valid in
        kbd_update_irq-IsValid (kbd_queue 0x41 (kbd_queue 0xab (kbd_queue 0xfa s)))
          (ground (arith, w))

read_at-state :
    (q : List ℕ) (i : ℕ) (t : KbdState) (ret : ℕ) (s' : KbdState)
    → read_at q i t ≡ some (ret, s')
    → s' ≡ t
unfolding read_at
read_at-state q i t ret s' e = elim (Option-cases (get_elem? q i)) [
  | inl outside ↦ ground (arith, e, outside)
  | inr (c, inside) ↦ ground (arith, e, inside)
]

-- The state after a byte of the keyboard is read, and after one of the mouse.
abbrev pub after_key : KbdState → KbdState
after_key s = record s {
  kread = s.kread + 1;
  undefined = s.undefined || int_overflows s.kread;
  kcount = s.kcount - 1;
  events = Event.irq_line 1 0 ∷ s.events;
}

abbrev pub after_move : KbdState → KbdState
after_move s = record s {
  mread = s.mread + 1;
  undefined = s.undefined || int_overflows s.mread;
  mcount = s.mcount - 1;
  events = Event.irq_line 12 0 ∷ s.events;
}

after_key-IsValid :
    (s : KbdState) → HasRoom 0 0 s → 0 < s.kcount → IsValid (kbd_update_irq (after_key s))
after_key-IsValid s r some_key =
    let v = r.valid in
    kbd_update_irq-IsValid (after_key s) (record {
      kq_size = v.kq_size;
      mq_size = v.mq_size;
      k_fits = omega (arith, v.k_fits);
      m_fits = v.m_fits;
      k_between = omega (arith, v.k_between);
      m_between = v.m_between;
      is_defined = ground (arith, v.is_defined, v.k_between, r.k_room);
    })

after_move-IsValid :
    (s : KbdState) → HasRoom 0 0 s → 0 < s.mcount → IsValid (kbd_update_irq (after_move s))
after_move-IsValid s r some_move =
    let v = r.valid in
    kbd_update_irq-IsValid (after_move s) (record {
      kq_size = v.kq_size;
      mq_size = v.mq_size;
      k_fits = v.k_fits;
      m_fits = omega (arith, v.m_fits);
      k_between = v.k_between;
      m_between = omega (arith, v.m_between);
      is_defined = ground (arith, v.is_defined, v.m_between, r.m_room);
    })

pub kbd_read_data-IsValid :
    (s : KbdState) (ret : ℕ) (s' : KbdState)
    → HasRoom 0 0 s
    → kbd_read_data s ≡ some (ret, s')
    → IsValid s'
unfolding kbd_read_data
kbd_read_data-IsValid s ret s' r e = elim (Bool-cases (s.kcount == 0)) [
  | inr some_key ↦
      let of_key : kbd_read_data s
          ≡ read_at s.kq (s.kread % queue_size) (kbd_update_irq (after_key s)) =
        rw (kbd_read_data, some_key) refl in
      subst IsValid
        (sym (
          read_at-state s.kq (s.kread % queue_size) (kbd_update_irq (after_key s)) ret s'
            (sym of_key ∙ e)))
        (after_key-IsValid s r (ground arith))
  | inl no_key ↦ elim (Bool-cases (ltb 0 s.mcount)) [
    | inl some_move ↦
        let of_move : kbd_read_data s
            ≡ read_at s.mq (s.mread % queue_size) (kbd_update_irq (after_move s)) =
          rw (kbd_read_data, no_key, some_move) refl in
        subst IsValid
          (sym (
            read_at-state s.mq (s.mread % queue_size) (kbd_update_irq (after_move s)) ret s'
              (sym of_move ∙ e)))
          (after_move-IsValid s r (ground arith))
    | inr no_move ↦
        let again : kbd_read_data s
            ≡ read_at s.kq (if ltb s.kread 1 then queue_size else s.kread - 1) s =
          rw (kbd_read_data, no_key, no_move) refl in
        subst IsValid
          (sym (
            read_at-state s.kq (if ltb s.kread 1 then queue_size else s.kread - 1) s ret s'
              (sym again ∙ e)))
          r.valid
  ]
]

-- A read with no byte waiting, whose index, the last one that was read, is outside the queue.
abbrev pub IsEmptyFault : ℕ → KbdState → Type 0
IsEmptyFault port s =
    (port ≡ 0x60) × (s.kcount ≡ 0) × (s.mcount ≡ 0) × ((s.kread ≡ 0) ⊎ (128 < s.kread))

-- What a read of a port leaves: a valid state, or nothing where it reads outside the queue, which is
-- then one of no waiting byte.
abbrev pub LeavesValid : ℕ → KbdState → Option (Bool × Data × KbdState) → Type 0
LeavesValid port before none = IsEmptyFault port before
LeavesValid port before (some (known, d, s)) = IsValid s

kbd_read_data-none : (s : KbdState) → IsValid s → kbd_read_data s ≡ none → IsEmptyFault 0x60 s
unfolding kbd_read_data
kbd_read_data-none s v e =
    let keys = get_elem?-eq-get_or s.kq (s.kread % 128) 0 (omega (arith, v.kq_size)) in
    let moves = get_elem?-eq-get_or s.mq (s.mread % 128) 0 (omega (arith, v.mq_size)) in
    let no_key : s.kcount ≡ 0 = ground (arith, e, keys) in
    let no_move : s.mcount ≡ 0 = ground (arith, e, moves, no_key) in
    elim (dec_lt 128 s.kread) [
      | yes big ↦ (refl, no_key, no_move, inr big)
      | no small ↦ elim (ℕ_discrete s.kread 0) [
        | yes zero_read ↦ (refl, no_key, no_move, inl zero_read)
        | no pos ↦ absurd (
            ground (
              arith,
              e,
              no_key,
              no_move,
              get_elem?-eq-get_or s.kq (s.kread - 1) 0 (omega (arith, v.kq_size)),
            ))
      ]
    ]

kbd_in-LeavesValid :
    (port : ℕ) (d : Data) (s : KbdState) → HasRoom 0 0 s → LeavesValid port s (kbd_in port d s)
unfolding kbd_in
kbd_in-LeavesValid port d s r = elim (Bool-cases (port == 0x60)) [
  | inr other ↦ ground (arith, other, r.valid)
  | inl data_port ↦
      let same : port ≡ 0x60 = ground arith in
      elim (Option-cases (kbd_read_data s)) [
        | inl outside ↦ rw (same, kbd_in, outside) (kbd_read_data-none s r.valid outside)
        | inr ((ret, t), read) ↦ rw (same, kbd_in, read) (kbd_read_data-IsValid s ret t r read)
      ]
]

-- The state after `kbd_reset` is valid.
pub kbd_reset-IsValid : IsValid kbd_reset
unfolding kbd_reset
kbd_reset-IsValid = ground (arith, length-replicate {A = ℕ} queue_size 0)

-- Each handler keeps a valid state valid, if fewer than 2 ^ 31 - 4 bytes have been put into each queue:
-- every byte is stored inside its queue of 128 bytes, no index overflows, the indices stay `count`
-- apart, OBF is set exactly while a byte waits, and AUXDATA exactly while the next byte is the
-- mouse's. A read of a port leaves its queue only at port 0x60 with no byte waiting, where either
-- no byte or more than 128 were read from the keyboard's queue before.
pub handlers-IsValid :
    (port : ℕ) (d : Data) (c : ℕ) (s : KbdState)
    → IsValid s
    → s.kwrite + 4 < 2 ^ 31
    → s.mwrite + 4 < 2 ^ 31
    → IsValid (kbd_out port d s).1
      × LeavesValid port s (kbd_in port d s)
      × IsValid (kbd_queue c s)
      × IsValid (mouse_queue c s)
unfolding kbd_out
handlers-IsValid port d c s v k m =
    let room : (i j : ℕ) → i ≤ 4 → j ≤ 4 → HasRoom i j s =
      λ i j hi hj. record { valid = v; k_room = omega (arith, k); m_room = omega (arith, m) } in
    (
      ground (
        arith,
        v,
        kbd_write_command-IsValid (read8 d) s (room 1 1 (omega arith) (omega arith)),
        kbd_write_data-IsValid (read32 d) s (room 3 4 (omega arith) (omega arith)),
      ),
      kbd_in-LeavesValid port d s (room 0 0 (omega arith) (omega arith)),
      (kbd_queue-HasRoom c 0 0 s (room 1 0 (omega arith) (omega arith))).valid,
      (mouse_queue-HasRoom c 0 0 s (room 0 1 (omega arith) (omega arith))).valid,
    )
