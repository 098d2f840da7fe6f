-- ===== src/Ioeventfd.antt =====
-- src/ioeventfd.c: the list of events, with what it asks of the kernel. An answer of the kernel is 0,
-- `none`, or an errno. `fn`, `fn_kvm` and `fn_ptr` are the argument `fn_ptr` alone, a number.
pub mod EventList
mod Tests
use kvmc.Prelude.{
  ℕ, ◌+◌, ◌*◌, List, [], ◌∷◌, ◌++◌, Bool, true, false, not, ◌&&◌, Option, none, some, ◌==◌,
  if◌then◌else◌, set_bit,
}

-- `struct ioevent`
pub record Ioevent : Type 0 where
  pub io_addr : ℕ
  pub io_len : ℕ
  pub fn_ptr : ℕ
  pub fd : ℕ
  pub datamatch : ℕ
  pub flags : ℕ

-- What is asked of the kernel: `ioctl` with KVM_IOEVENTFD, `epoll_ctl`, and `close`.
pub data Call : Type 0 where
  kvm_ioeventfd : (addr len datamatch fd flags : ℕ) → Call
  epoll_add : ℕ → Call
  epoll_del : ℕ → Call
  close : ℕ → Call

-- `used_ioevents` and `ioeventfd_avail`, with the calls so far.
pub record Events : Type 0 where
  pub avail : Bool
  pub used : List Ioevent
  pub calls : List Call

-- The two flags of a caller, and what `malloc`, `ioctl` and `epoll_ctl` answer.
pub record Request : Type 0 where
  pub pio : Bool
  pub user_poll : Bool

pub record Answers : Type 0 where
  pub malloc : Bool
  pub ioctl : Option ℕ
  pub epoll : Option ℕ

-- How a call ends: with 0 or with an error code.
pub data ErrorCode : Type 0 where
  enosys enomem enoent : ErrorCode
  errno : ℕ → ErrorCode

pub data Result : Type 0 where
  success : Result
  failure : ErrorCode → Result

-- The flags of the kernel's event: KVM_IOEVENTFD_FLAG_DATAMATCH is 1, KVM_IOEVENTFD_FLAG_PIO 2 and
-- KVM_IOEVENTFD_FLAG_DEASSIGN 4. `has_pio` is KVM_IOEVENTFD_HAS_PIO.
abbrev pub kernel_flags : Bool → Request → ℕ
kernel_flags has_pio f = if has_pio && f.pio then 3 else 1

-- `flags | KVM_IOEVENTFD_FLAG_DEASSIGN`
abbrev pub with_deassign : ℕ → ℕ
with_deassign flags = set_bit flags 2

abbrev pub asked : Call → Events → Events
asked c s = record s { calls = s.calls ++ (c ∷ []) }

-- The end of `ioeventfd__add_event`: the caller's structure gets the flags, the list its copy.
pub link_event : ℕ → Ioevent → Events → Result × Ioevent × Events
link_event flags e s = (success, record e { flags = flags }, record s { used = s.used ++ (e ∷ []) })

-- `ioeventfd__add_event`: also the caller's structure afterwards.
pub add_event : Bool → Answers → Request → Ioevent → Events → Result × Ioevent × Events
unfolding link_event
add_event has_pio a f e s =
    let flags = kernel_flags has_pio f in
    let assigned = asked (kvm_ioeventfd e.io_addr e.io_len e.datamatch e.fd flags) s in
    let polled = asked (epoll_add e.fd) assigned in
    if not s.avail
    then (failure enosys, e, s)
    else (if not a.malloc then (failure enomem, e, s) else elim a.ioctl [
      | some n ↦ (failure (errno n), e, assigned)
      | none ↦
          if f.user_poll
          then elim a.epoll [
            | some n ↦ (failure (errno n), e, polled)
            | none ↦ link_event flags e polled
          ]
          else link_event flags e assigned
    ])

-- The loop of `ioeventfd__del_event`: the first event of an address, and the list without it.
pub take_first : ℕ → List Ioevent → Option (Ioevent × List Ioevent)
take_first addr [] = none
take_first addr (e ∷ es) =
    let rest = take_first addr es in
    if e.io_addr == addr
    then some (e, es)
    else elim rest [ none ↦ none | some (found, left) ↦ some (found, e ∷ left) ]

-- `ioeventfd__del_event`, which does not read its argument `datamatch`.
pub del_event : ℕ → ℕ → Events → Result × Events
del_event addr datamatch s =
    if not s.avail then (failure enosys, s) else elim (take_first addr s.used) [
      | none ↦ (failure enoent, s)
      | some (e, left) ↦ (
        success,
        record s {
          used = left;
          calls =
              s.calls
              ++ (kvm_ioeventfd e.io_addr e.io_len e.datamatch 0 (with_deassign e.flags)
                  ∷ epoll_del e.fd
                  ∷ close e.fd
                  ∷ []);
        },
      )
    ]
