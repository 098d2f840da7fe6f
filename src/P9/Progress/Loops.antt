-- ===== src/P9/Progress/Loops.antt =====
-- The loops of `virtio_p9_walk` and `virtio_p9_readdir`.
use kvmc.Prelude.{
  ℕ, zero, suc, ◌+◌, ◌%◌, ◌^◌, ◌≤◌, ◌<◌, ◌≡◌, ◌≢◌, refl, sym, ap, ◌∙◌, List, Option, none, some,
  arith, ltb, if◌then◌else◌, Bool-cases, inl, inr,
}
use native.Mathlib.Decide.{dec_lt}
use kvmc.P9Pdu
use kvmc.P9Pdu.{Arg, Format, Decoded, Value, is_string}
use kvmc.P9.{
  Text, Fid, Dirent, Host, P9, Ending, ok, err, fault, out_of_fuel, pure, get_state, ask, modify,
  run_host, continue, ◌>>=◌, ◌>>◌,
}
use kvmc.P9.Paths.{FullPath, full, refused, get_full_path_helper}
use kvmc.P9.Fids.{load_fid, update_fid, join_path}
use kvmc.P9.Replies.{readf, decoded, read_str, read_name, writef, raised, stat_rel}
use kvmc.P9.Transfer.{stat_full, put_dirent, put_dirents, dentry_size}
use kvmc.P9.Walk.{join_or_raise, walk_step, walk_steps}
use kvmc.P9.Progress.{
  Ended, Ends, Ends-bind, Ends-call, Ends-deref, Ends-get_state, Ends-modify, Ends-pure,
  Ends-raise_errno, Ends-run_host, ends_rules, ltb-false, ltb-true,
}

module _ {H : Type 0} where
  Ends-load_fid : (p : ℕ) → Ends {H = H} (load_fid p)
  unfolding load_fid
  Ends-load_fid p = Ends-bind _ _ (Ends-get_state _) Ends-deref

  Ends-update_fid : (p : ℕ) (f : Fid → Fid) → Ends {H = H} (update_fid p f)
  unfolding update_fid
  Ends-update_fid p f = Ends-bind _ _ (Ends-load_fid p) (λ c. Ends-modify _)

  Ends-join_or_raise : (p : ℕ) (name : Text) → Ends {H = H} (join_or_raise p name)
  unfolding join_or_raise join_path
  Ends-join_or_raise p name =
      Ends-bind _ _ (Ends-bind _ _ (Ends-get_state _) (λ n. search (ends_rules, Ends-update_fid)))
        (λ b. search ends_rules)

  Ends-writef : (args : List Arg) → Ends {H = H} (writef args)
  unfolding writef
  Ends-writef args = Ends-modify _

  Ends-raised : (f : FullPath) → Ends {H = H} (raised f)
  Ends-raised (full path) = Ends-pure path
  Ends-raised (refused e) = Ends-raise_errno e

abbrev pub entries : Option Dirent → ℕ
entries none = 0
entries (some d) = 1

module _ {H : Type 0} (os : Host H) where
  Ends-readf : (f : Format) → Ends (readf os f)
  unfolding readf
  Ends-readf f = record { at = λ s. decodes s (P9Pdu.get (os.malloc s.host) os.junk f s.pdu) }
    where
      decodes : (s : P9 H) (d : Decoded) → Ended (decoded os d s).0
      decodes s (Decoded.got v p) = tt
      decodes s (Decoded.no_memory p) = tt
      decodes s Decoded.fault = tt

  Ends-read_name : Ends (read_name os)
  unfolding read_name read_str
  Ends-read_name =
      Ends-bind _ _ (Ends-bind _ _ (Ends-readf is_string) (λ v. Ends-pure _)) Ends-deref

  Ends-stat_rel : (path : Text) → Ends (stat_rel os path)
  unfolding stat_rel
  Ends-stat_rel path =
      Ends-bind _ _ (Ends-get_state _) (λ r. Ends-bind _ _ (Ends-raised _) (λ p. Ends-call _))

  Ends-walk_step : (new_fid fid : ℕ) → Ends (walk_step os new_fid fid)
  unfolding walk_step
  Ends-walk_step new_fid fid = Ends-bind _ _ Ends-read_name (λ name.
      search
        (ends_rules, Ends-load_fid, Ends-update_fid, Ends-join_or_raise, Ends-writef, Ends-stat_rel)
        depth 20)

  -- A walk over at most 255 names ends within that many rounds, with a value, an error or a fault.
  pub walk_steps-Ends :
      (fuel new_fid fid nwname i nwqid : ℕ)
      → nwname ≤ 255
      → nwname ≤ i + fuel
      → Ends (walk_steps os fuel new_fid fid nwname i nwqid)
  unfolding walk_steps
  walk_steps-Ends zero new_fid fid nwname i nwqid few enough =
      rw (ltb-false i nwname (omega arith)) (Ends-pure nwqid)
  walk_steps-Ends (suc fuel) new_fid fid nwname i nwqid few enough = elim (dec_lt i nwname) [
    | yes more ↦ rw (ltb-true i nwname more) (
        Ends-bind _ _ (Ends-walk_step new_fid fid) (λ _.
          walk_steps-Ends fuel new_fid fid nwname ((i + 1) % 256) ((nwqid + 1) % 65536) few
            (omega arith)))
    | no end ↦ rw (ltb-false i nwname (omega arith)) (Ends-pure nwqid)
  ]

  -- A walk over more than 255 names never succeeds: the counter is a byte, which starts again at 0,
  -- so that the loop goes on until a step fails.
  pub walk_steps-wraps :
      (fuel new_fid fid nwname i nwqid n : ℕ) (s : P9 H)
      → 255 < nwname
      → i ≤ 255
      → (walk_steps os fuel new_fid fid nwname i nwqid s).0 ≢ ok n
  unfolding walk_steps ◌>>=◌
  walk_steps-wraps zero new_fid fid nwname i nwqid n s many byte e =
      absurd (ground (arith, e, ltb-true i nwname (omega arith)))
  walk_steps-wraps (suc fuel) new_fid fid nwname i nwqid n s many byte e =
      stepped
        (λ s'.
          walk_steps-wraps fuel new_fid fid nwname ((i + 1) % 256) ((nwqid + 1) % 65536) n s' many
            (omega arith))
        (walk_step os new_fid fid s)
        (ap
            (λ b.
              ((if b
                  then walk_step os new_fid fid
                    >> walk_steps os fuel new_fid fid nwname ((i + 1) % 256) ((nwqid + 1) % 65536)
                  else pure nwqid)
                s).0)
            (sym (ltb-true i nwname (omega arith)))
          ∙ e)
    where
      stepped :
          ((s' : P9 H)
            → (walk_steps os fuel new_fid fid nwname ((i + 1) % 256) ((nwqid + 1) % 65536) s').0
              ≢ ok n)
          → (r : Ending (Unit {0}) × P9 H)
          → (continue r.0
              (λ _. walk_steps os fuel new_fid fid nwname ((i + 1) % 256) ((nwqid + 1) % 65536))
              r.1).0
            ≢ ok n
      stepped ih (ok _, s') e = ih s' e
      stepped ih (err m, s') e = cc
      stepped ih (fault, s') e = cc
      stepped ih (out_of_fuel, s') e = cc

  Ends-past : (f : H → H) (n : ℕ) → Ends {H = H} (run_host f >> pure n)
  Ends-past f n = Ends-bind _ _ (Ends-run_host f) (λ _. Ends-pure n)

  Ends-put_dirent : (d : Dirent) → Ends (put_dirent os d)
  unfolding put_dirent
  Ends-put_dirent d =
      Ends-bind _ _ (Ends-get_state _) (λ r. search (ends_rules, Ends-writef) depth 20)

  -- Writing an entry asks the host for the attributes of one path at most.
  put_dirent-host :
      (d : Dirent) (s : P9 H)
      → (put_dirent os d s).1.host
        ≡ (stat_full os (get_full_path_helper s.root_dir d.d_name) s.host).1
  unfolding put_dirent get_state ask writef modify ◌>>=◌
  put_dirent-host d s = refl

  module _ (left : H → ℕ) (lstat-left : (path : Text) (h : H) → left (os.lstat path h).1 ≡ left h)
      (readdir-left : (dir : ℕ) (h : H)
        → left (os.readdir dir h).1 + entries (os.readdir dir h).0 ≤ left h) where
    stat_full-left : (f : FullPath) (h : H) → left (stat_full os f h).1 ≡ left h
    unfolding stat_full
    stat_full-left (full path) h = lstat-left path h
    stat_full-left (refused e) h = refl

    -- Reading a directory ends within as many rounds as the host has entries left.
    pub put_dirents-Ends :
        (fuel dir count old_offset rcount : ℕ) (o : Option Dirent) (s : P9 H)
        → left s.host + entries o ≤ fuel
        → Ended (put_dirents os fuel dir count old_offset rcount o s).0
    unfolding put_dirents ask ◌>>=◌
    put_dirents-Ends zero dir count old_offset rcount none s h = (Ends-pure rcount).at s
    put_dirents-Ends (suc fuel) dir count old_offset rcount none s h = (Ends-pure rcount).at s
    put_dirents-Ends zero dir count old_offset rcount (some d) s h = absurd (omega arith)
    put_dirents-Ends (suc fuel) dir count old_offset rcount (some d) s h =
        elim (Bool-cases (ltb count ((rcount + dentry_size d) % 2 ^ 32))) [
          | inl past ↦ rw past ((Ends-past (os.seekdir dir old_offset) rcount).at s)
          | inr room ↦ rw room (
              written_at (put_dirent os d s) ((Ends-put_dirent d).at s) host
                (put_dirents-Ends fuel dir count))
        ]
      where
        host : left (put_dirent os d s).1.host ≡ left s.host
        host =
            ap left (put_dirent-host d s)
            ∙ stat_full-left (get_full_path_helper s.root_dir d.d_name) s.host

        written_at :
            (r : Ending ℕ × P9 H)
            → Ended r.0
            → left r.1.host ≡ left s.host
            → ((old n : ℕ) (o : Option Dirent) (s' : P9 H)
                → left s'.host + entries o ≤ fuel
                → Ended (put_dirents os fuel dir count old n o s').0)
            → Ended
                (continue r.0
                  (λ written. ask (os.readdir dir) >>= λ next.
                    put_dirents os fuel dir count d.d_off ((rcount + written) % 2 ^ 32) next)
                  r.1).0
        written_at (ok w, s') e l k =
            k d.d_off ((rcount + w) % 2 ^ 32) (os.readdir dir s'.host).0
              (record s' { host = (os.readdir dir s'.host).1 })
              (omega (arith, readdir-left dir s'.host))
        written_at (err n, s') e l k = tt
        written_at (fault, s') e l k = tt
        written_at (out_of_fuel, s') e l k = elim e [ ]
