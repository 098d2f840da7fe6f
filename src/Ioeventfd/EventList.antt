-- ===== src/Ioeventfd/EventList.antt =====
-- What the list of events of src/ioeventfd.c holds.
use kvmc.Prelude.{
  ℕ, suc, ◌+◌, ◌-◌, ◌≡◌, refl, List, [], ◌∷◌, ◌++◌, Bool, true, false, Option, none, some, ◌==◌,
  if◌then◌else◌, arith, Bool-cases, inl, inr,
}
use kvmc.Ioeventfd.{
  Ioevent, Call, kvm_ioeventfd, epoll_add, epoll_del, close, Events, Request, Answers, success,
  kernel_flags, with_deassign, take_first, del_event,
}

-- The events of other addresses, and the number of those of an address.
abbrev pub without : ℕ → List Ioevent → List Ioevent
without addr [] = []
without addr (e ∷ es) = if e.io_addr == addr then without addr es else e ∷ without addr es

abbrev pub held : ℕ → List Ioevent → ℕ
held addr [] = 0
held addr (e ∷ es) = if e.io_addr == addr then suc (held addr es) else held addr es

-- What `take_first` finds, and what it leaves.
abbrev pub Taken : ℕ → List Ioevent → Option (Ioevent × List Ioevent) → Type 0
Taken addr es none = (without addr es ≡ es) × (held addr es ≡ 0)
Taken addr es (some (e, left)) =
    (without addr left ≡ without addr es) × (held addr left + 1 ≡ held addr es)

Taken-cons :
    (addr : ℕ) (x : Ioevent) (es : List Ioevent) (o : Option (Ioevent × List Ioevent))
    → (x.io_addr == addr) ≡ false
    → Taken addr es o
    → Taken addr (x ∷ es) (elim o [ none ↦ none | some (found, left) ↦ some (found, x ∷ left) ])
Taken-cons addr x es none other t = ground (arith, t.0, t.1)
Taken-cons addr x es (some (e, left)) other t = ground (arith, t.0, t.1)

pub take_first-Taken : (addr : ℕ) (es : List Ioevent) → Taken addr es (take_first addr es)
unfolding take_first
take_first-Taken addr [] = (refl, refl)
take_first-Taken addr (x ∷ es) = elim (Bool-cases (x.io_addr == addr)) [
  | inl same ↦ rw (take_first, same) (ground arith)
  | inr other ↦ rw (take_first, other) (Taken-cons addr x es _ other (take_first-Taken addr es))
]

pub take_first-append :
    (es : List Ioevent) (e : Ioevent)
    → held e.io_addr es ≡ 0
    → take_first e.io_addr (es ++ (e ∷ [])) ≡ some (e, es)
unfolding take_first
take_first-append [] e h = ground arith
take_first-append (x ∷ es) e h =
    let other : (x.io_addr == e.io_addr) ≡ false = ground arith in
    rw (take_first, other, take_first-append es e (ground arith)) refl

del_event-nothing :
    (addr datamatch : ℕ) (s : Events)
    → s.avail ≡ true
    → take_first addr s.used ≡ none
    → (del_event addr datamatch s).1 ≡ s
unfolding del_event
del_event-nothing addr datamatch s on n = ground arith

-- The calls that take an event back.
abbrev pub take_back : Ioevent → List Call
take_back e =
    kvm_ioeventfd e.io_addr e.io_len e.datamatch 0 (with_deassign e.flags)
    ∷ epoll_del e.fd
    ∷ close e.fd
    ∷ []

del_event-first :
    (addr datamatch : ℕ) (s : Events) (e : Ioevent) (left : List Ioevent)
    → s.avail ≡ true
    → take_first addr s.used ≡ some (e, left)
    → del_event addr datamatch s
      ≡ (success, record s { used = left; calls = s.calls ++ take_back e })
unfolding del_event
del_event-first addr datamatch s e left on n = ground arith

-- What a deletion does to the list.
abbrev pub Deleted : ℕ → Events → Events → Type 0
Deleted addr s s' =
    (s'.avail ≡ s.avail)
    × (without addr s'.used ≡ without addr s.used)
    × (held addr s'.used ≡ held addr s.used - 1)

-- A deletion on a kernel with ioeventfds removes one event of the address, if there is one, and
-- touches no other.
pub del_event-Deleted :
    (addr datamatch : ℕ) (s : Events)
    → s.avail ≡ true
    → Deleted addr s (del_event addr datamatch s).1
del_event-Deleted addr datamatch s on =
    go (take_first addr s.used) refl (take_first-Taken addr s.used)
  where
    go :
        (o : Option (Ioevent × List Ioevent))
        → take_first addr s.used ≡ o
        → Taken addr s.used o
        → Deleted addr s (del_event addr datamatch s).1
    go none n t = rw (del_event-nothing addr datamatch s on n) (refl, refl, omega (arith, t.1))
    go (some (e, left)) n t =
        rw (del_event-first addr datamatch s e left on n) (refl, t.0, omega (arith, t.1))

module _ (has_pio : Bool) (a : Answers) (f : Request) (e : Ioevent) (s : Events) where
  -- The calls that assign an event.
  abbrev pub assign : List Call
  assign =
      kvm_ioeventfd e.io_addr e.io_len e.datamatch e.fd (kernel_flags has_pio f)
      ∷ (if f.user_poll then epoll_add e.fd ∷ [] else [])
