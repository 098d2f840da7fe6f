-- ===== src/P9/Progress.antt =====
-- The loops of hw/virtio/9p.c end: rules for actions that do not run out of rounds.
pub mod Loops
use kvmc.Prelude.{
  ℕ, zero, suc, ◌+◌, ◌%◌, ◌^◌, ◌≤◌, ◌<◌, ◌≡◌, ◌≢◌, refl, sym, ap, ◌∙◌, List, Bool, true, false,
  Option, none, some, arith, ltb, if◌then◌else◌, Bool-cases, inl, inr,
}
use native.Mathlib.Decide.{dec_lt}
use kvmc.P9Pdu
use kvmc.P9Pdu.{Arg, Format, Decoded, Value, is_string}
use kvmc.P9.{
  Text, Fid, Dirent, SysAnswer, done, failed, Host, P9, Ending, ok, err, fault, out_of_fuel, Exec,
  pure, raise_errno, crash, get_state, ask, call, deref, modify, run_host, after_call, continue,
  ◌>>=◌, ◌>>◌,
}
use kvmc.P9.Paths.{FullPath, full, refused, get_full_path_helper}
use kvmc.P9.Fids.{load_fid, update_fid, join_path}
use kvmc.P9.Replies.{readf, decoded, read_str, read_name, writef, raised, stat_rel}
use kvmc.P9.Transfer.{stat_full, put_dirent, put_dirents, dentry_size}
use kvmc.P9.Walk.{join_or_raise, walk_step, walk_steps}

pub ltb-true : (a b : ℕ) → a < b → ltb a b ≡ true
ltb-true a b h = ground arith

pub ltb-false : (a b : ℕ) → b ≤ a → ltb a b ≡ false
ltb-false a b h = ground arith

-- Not stopped for lack of rounds.
abbrev pub Ended : {A : Type 0} → Ending A → Type 0
Ended (ok a) = Unit
Ended (err e) = Unit
Ended fault = Unit
Ended out_of_fuel = ⊥

pub record Ends {H A : Type 0} (m : Exec H A) : Type 0 where
  pub at : (s : P9 H) → Ended (m s).0

module _ {H : Type 0} where
  module _ {A : Type 0} where
    pub Ends-pure : (a : A) → Ends {H = H} (pure a)
    unfolding pure
    Ends-pure a = record { at = λ s. tt }

    pub Ends-raise_errno : (e : ℕ) → Ends {H = H} {A = A} (raise_errno e)
    unfolding raise_errno
    Ends-raise_errno e = record { at = λ s. tt }

    pub Ends-crash : Ends {H = H} {A = A} crash
    unfolding crash
    Ends-crash = record { at = λ s. tt }

    pub Ends-get_state : (f : P9 H → A) → Ends (get_state f)
    unfolding get_state
    Ends-get_state f = record { at = λ s. tt }

    pub Ends-ask : (f : H → A × H) → Ends (ask f)
    unfolding ask
    Ends-ask f = record { at = λ s. tt }

    pub Ends-call : (f : H → SysAnswer A × H) → Ends (call f)
    unfolding call
    Ends-call f = record { at = λ s. answers s (f s.host) }
      where
        answers : (s : P9 H) (r : SysAnswer A × H) → Ended (after_call r s).0
        answers s (done a, h) = tt
        answers s (failed e, h) = tt

    pub Ends-deref : (o : Option A) → Ends {H = H} (deref o)
    unfolding deref
    Ends-deref none = Ends-crash
    Ends-deref (some a) = Ends-pure a

    pub Ends-if : (b : Bool) (m n : Exec H A) → Ends m → Ends n → Ends (if b then m else n)
    Ends-if true m n em en = em
    Ends-if false m n em en = en

  pub Ends-modify : (f : P9 H → P9 H) → Ends (modify f)
  unfolding modify
  Ends-modify f = record { at = λ s. tt }

  pub Ends-run_host : (f : H → H) → Ends {H = H} (run_host f)
  unfolding run_host
  Ends-run_host f = record { at = λ s. tt }

  module _ {A B : Type 0} where
    continues :
        (r : Ending A) (f : A → Exec H B) (s : P9 H)
        → Ended r
        → ((a : A) → Ends (f a))
        → Ended (continue r f s).0
    continues (ok a) f s e k = (k a).at s
    continues (err n) f s e k = tt
    continues fault f s e k = tt
    continues out_of_fuel f s e k = elim e [ ]

    pub Ends-bind :
        (m : Exec H A) (f : A → Exec H B) → Ends m → ((a : A) → Ends (f a)) → Ends (m >>= f)
    unfolding ◌>>=◌
    Ends-bind m f em ef = record { at = λ s. let (r, s') = m s in continues r f s' (em.at s) ef }

pub ruleset ends_rules = (
  Ends-bind, Ends-pure, Ends-raise_errno, Ends-crash, Ends-get_state, Ends-ask, Ends-call,
  Ends-deref, Ends-if, Ends-modify, Ends-run_host,
)
