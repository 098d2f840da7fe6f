-- ===== src/I8042/Protocol.antt =====
-- The controller as two queues: what a read of port 0x60 answers, and what commands do.
use kvmc.Prelude.{
  ◌^◌, ℕ, ◌+◌, ◌-◌, ◌%◌, ◌≤◌, ◌<◌, ◌≡◌, refl, List, [], ◌∷◌, ◌++◌, none, some, arith, ltb,
  if◌then◌else◌, length, ◌⊎◌, inl, inr, get_elem?-eq-get_or, get_elem?-none, ◌↔◌, append_assoc, ◌≢◌,
  ap, ◌∙◌,
}
use native.Mathlib.Decide.{dec_lt, ℕ_discrete}
use kvmc.I8042.Queue.{window, length-window, window_of_pos, window-set}
use kvmc.I8042.Invariant.{
  IsValid, HasRoom, mouse_queue-HasRoom, after_key, after_move, kbd_read_data-IsValid,
}
use kvmc.I8042.{
  KbdState, kbd_update_irq, mouse_queue, kbd_queue, kbd_write_command, kbd_read_data, mouse_command,
  kbd_write_data, char_to_u32,
}

-- The bytes that wait, oldest first.
abbrev pub keys : KbdState → List ℕ
keys s = window s.kq s.kread s.kcount

abbrev pub moves : KbdState → List ℕ
moves s = window s.mq s.mread s.mcount

-- A queue that drops what does not fit.
abbrev pub put : ℕ → List ℕ → List ℕ
put c q = if ltb (length q) 128 then q ++ (c ∷ []) else q

-- `kbd_queue` puts a byte behind the keyboard's queue, or drops it if 128 bytes wait, and leaves
-- the mouse's queue alone.
kbd_queue_refines :
    (c : ℕ) (s : KbdState)
    → IsValid s
    → (keys (kbd_queue c s) ≡ put c (keys s)) × (moves (kbd_queue c s) ≡ moves s)
unfolding kbd_queue kbd_update_irq
kbd_queue_refines c s v = (
  ground (
    arith,
    length-window s.kq s.kread s.kcount,
    window-set s.kq s.kread s.kcount s.kwrite c v.kq_size,
  ),
  ground arith,
)

-- `mouse_queue` does the same for the mouse's queue.
mouse_queue_refines :
    (c : ℕ) (s : KbdState)
    → IsValid s
    → (moves (mouse_queue c s) ≡ put c (moves s)) × (keys (mouse_queue c s) ≡ keys s)
unfolding mouse_queue kbd_update_irq
mouse_queue_refines c s v = (
  ground (
    arith,
    length-window s.mq s.mread s.mcount,
    window-set s.mq s.mread s.mcount s.mwrite c v.mq_size,
  ),
  ground arith,
)

read_key :
    (s : KbdState) (k : ℕ) (ks : List ℕ)
    → IsValid s
    → keys s ≡ k ∷ ks
    → (s' : KbdState) × (kbd_read_data s ≡ some (char_to_u32 k, s'))
      × (keys s' ≡ ks)
      × (moves s' ≡ moves s)
unfolding kbd_read_data kbd_update_irq
read_key s k ks v e =
    let pos : s.kcount ≢ 0 = omega (arith, ap length e, length-window s.kq s.kread s.kcount) in
    let head = window_of_pos s.kq s.kread s.kcount pos in
    let there = get_elem?-eq-get_or s.kq (s.kread % 128) 0 (omega (arith, v.kq_size)) in
    (kbd_update_irq (after_key s), ground (arith, head, there), ground (arith, head), refl)

read_move :
    (s : KbdState) (m : ℕ) (ms : List ℕ)
    → IsValid s
    → keys s ≡ []
    → moves s ≡ m ∷ ms
    → (s' : KbdState) × (kbd_read_data s ≡ some (char_to_u32 m, s'))
      × (keys s' ≡ [])
      × (moves s' ≡ ms)
unfolding kbd_read_data kbd_update_irq
read_move s m ms v e f =
    let nil : s.kcount ≡ 0 = omega (arith, ap length e, length-window s.kq s.kread s.kcount) in
    let pos : s.mcount ≢ 0 = omega (arith, ap length f, length-window s.mq s.mread s.mcount) in
    let head = window_of_pos s.mq s.mread s.mcount pos in
    let there = get_elem?-eq-get_or s.mq (s.mread % 128) 0 (omega (arith, v.mq_size)) in
    (kbd_update_irq (after_move s), ground (arith, head, there), e, ground (arith, head))

-- All the bytes that wait, in the order in which they are to be read: the keyboard's come first.
abbrev pub pending : KbdState → List ℕ
pending s = keys s ++ moves s

read_order :
    (s : KbdState) (c : ℕ) (cs : List ℕ)
    → IsValid s
    → pending s ≡ c ∷ cs
    → (s' : KbdState) × (kbd_read_data s ≡ some (char_to_u32 c, s')) × (pending s' ≡ cs)
read_order s c cs v e = by_keys (keys s) refl
  where
    by_keys :
        (q : List ℕ)
        → keys s ≡ q
        → (s' : KbdState) × (kbd_read_data s ≡ some (char_to_u32 c, s')) × (pending s' ≡ cs)
    by_keys [] none_left =
        let (s', r, k, m) = read_move s c cs v none_left (ground (arith, none_left)) in
        (s', r, ground (arith, k, m))
    by_keys (x ∷ q) some_left =
        let (s', r, k, m) = read_key s x q v some_left in
        (s', ground (arith, r, some_left), ground (arith, k, m, some_left))

-- A read of the data port, where fewer than 2 ^ 31 bytes have been put into each queue, answers the
-- first pending byte, sign-extended, and removes it alone: the keyboard's bytes in the order of their
-- arrival, then the mouse's. The state is valid again, so that no index has overflowed.
pub read_refines :
    (s : KbdState) (c : ℕ) (cs : List ℕ)
    → IsValid s
    → s.kwrite < 2 ^ 31
    → s.mwrite < 2 ^ 31
    → pending s ≡ c ∷ cs
    → (s' : KbdState) × (kbd_read_data s ≡ some (char_to_u32 c, s'))
      × (pending s' ≡ cs)
      × IsValid s'
read_refines s c cs v k m e =
    let (s', answer, left) = read_order s c cs v e in
    let room : HasRoom 0 0 s = record {
      valid = v;
      k_room = omega (arith, k);
      m_room = omega (arith, m);
    } in
    (s', answer, left, kbd_read_data-IsValid s (char_to_u32 c) s' room answer)

-- With no byte waiting, a read of the data port indexes `kq` out of bounds exactly if nothing was
-- ever read from the keyboard, or more than 128 bytes were: the index is not reduced modulo the
-- queue's size, and wraps to 128 instead of 127.
read_empty_fault :
    (s : KbdState)
    → IsValid s
    → s.kcount ≡ 0
    → s.mcount ≡ 0
    → (kbd_read_data s ≡ none) ↔ ((s.kread ≡ 0) ⊎ (128 < s.kread))
unfolding kbd_read_data
read_empty_fault s v ek em = (
  λ e. elim (dec_lt 128 s.kread) [
    | yes big ↦ inr big
    | no small ↦ elim (ℕ_discrete s.kread 0) [
      | yes zero ↦ inl zero
      | no pos ↦
          ground (arith, e, get_elem?-eq-get_or s.kq (s.kread - 1) 0 (omega (arith, v.kq_size)))
    ]
  ],
  λ h. ground (
    arith,
    get_elem?-none s.kq 128 (omega (arith, v.kq_size)),
    get_elem?-none s.kq (s.kread - 1),
    v.kq_size,
  ),
)

-- The mode register that a guest writes (command 0x60, then the value) is what it reads back
-- (command 0x20, then the data port), if the keyboard's queue was empty.
mode_roundtrip :
    (s : KbdState) (v : ℕ)
    → IsValid s
    → s.kcount ≡ 0
    → v < 256
    → let t = kbd_write_command 0x20 (kbd_write_data v (kbd_write_command 0x60 s)) in
      (t.mode ≡ v) × (t.write_cmd ≡ 0) × (keys t ≡ v ∷ [])
unfolding kbd_write_data kbd_write_command kbd_update_irq kbd_queue
mode_roundtrip s v valid e h = (
  ground arith,
  ground arith,
  ground (arith, window-set s.kq s.kread s.kcount s.kwrite v valid.kq_size),
)

mouse_queue_room :
    (c : ℕ) (s : KbdState)
    → IsValid s
    → s.mcount < 128
    → (moves (mouse_queue c s) ≡ moves s ++ (c ∷ []))
      × (keys (mouse_queue c s) ≡ keys s)
      × ((mouse_queue c s).mcount ≡ s.mcount + 1)
      × ((mouse_queue c s).mstatus ≡ s.mstatus)
      × ((mouse_queue c s).mres ≡ s.mres)
      × ((mouse_queue c s).msample ≡ s.msample)
unfolding mouse_queue kbd_update_irq
mouse_queue_room c s v h = ground (arith, window-set s.mq s.mread s.mcount s.mwrite c v.mq_size)

-- A status request (command 0xd4, then 0xe9) queues the ACK, the mouse's status, its resolution
-- and its sample rate, in this order, if four bytes fit and no index overflows.
mouse_status_report :
    (s : KbdState)
    → HasRoom 0 4 s
    → s.mcount + 4 ≤ 128
    → let t = kbd_write_data 0xe9 (kbd_write_command 0xd4 s) in
      (moves t ≡ moves s ++ (0xfa ∷ s.mstatus ∷ s.mres ∷ s.msample ∷ []))
      × (keys t ≡ keys s)
      × (t.write_cmd ≡ 0)
unfolding kbd_write_data kbd_write_command mouse_command
mouse_status_report s v h =
    let a = record s { write_cmd = 0xd4 } in
    let va : IsValid a = ground (arith, v.valid) in
    let ra : HasRoom 0 4 a = record { valid = va; k_room = v.k_room; m_room = v.m_room } in
    let r1 = mouse_queue-HasRoom 0xfa 0 3 a ra in
    let s1 = mouse_queue 0xfa a in
    let v1 = r1.valid in
    let (m1, k1, n1, a1, b1, c1) = mouse_queue_room 0xfa a va (omega arith) in
    let s2 = mouse_queue s1.mstatus s1 in
    let v2 : IsValid s2 = (mouse_queue-HasRoom s1.mstatus 0 2 s1 r1).valid in
    let (m2, k2, n2, a2, b2, c2) = mouse_queue_room s1.mstatus s1 v1 (omega (arith, n1)) in
    let s3 = mouse_queue s1.mres s2 in
    let v3 : IsValid s3 =
      (mouse_queue-HasRoom s1.mres 0 1 s2 (mouse_queue-HasRoom s1.mstatus 0 2 s1 r1)).valid in
    let (m3, k3, n3, a3, b3, c3) = mouse_queue_room s1.mres s2 v2 (omega (arith, n1, n2)) in
    let (m4, k4, n4, a4, b4, c4) = mouse_queue_room s1.msample s3 v3 (omega (arith, n1, n2, n3)) in
    (
      m4
          ∙ ap (λ q. q ++ (s1.msample ∷ []))
              (m3 ∙ ap (λ q. q ++ (s1.mres ∷ [])) (m2 ∙ ap (λ q. q ++ (s1.mstatus ∷ [])) m1))
          ∙ rw (a1, b1, c1) (simp append_assoc),
      k4 ∙ k3 ∙ k2 ∙ k1,
      refl,
    )
