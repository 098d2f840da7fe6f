-- ===== src/P9/Safety/Messages.antt =====
-- The messages, and the table of fids where it asks the host, as actions that keep the server safe.
use kvmc.Prelude.{
  ℕ, ◌≡◌, refl, sym, ap, ◌∙◌, [], ◌∷◌, ◌++◌, Bool, true, false, Option, none, some, All, leb,
  if◌then◌else◌, length,
}
use kvmc.P9Pdu
use kvmc.P9Pdu.{Arg, Format, Decoded, Value}
use kvmc.P9.{
  Text, Node, Change, Host, P9, Ending, ok, err, fault, out_of_fuel, Exec, pure, ask, call, modify,
  ◌>>=◌,
}
use kvmc.P9.Paths.{FullPath, full, refused, get_full_path_helper, path_max}
use kvmc.P9.Paths.Components.{climbs, climbs-append, climbs-slash}
use kvmc.P9.Fids.{
  FidBalance, add_fid, new_fid, find_or_create_fid, get_fid, close_fid, insert_new_fid,
}
use kvmc.P9.Replies.{
  readf, decoded, read_num, read_str, read_name, virtio_p9_set_reply_header, send_reply,
  virtio_p9_error_reply, handled, or_error, raised, stat_rel, is_dir,
}
use kvmc.P9.Safety.{
  Inside, FidInside, Respects, IsSafe, OnOk, Anything, Keeps, Keeps-pure, Keeps-raise_errno,
  Keeps-get_state, Keeps-call, Keeps-ask, Keeps-run_host, Keeps-modify, Keeps-bind, Keeps-always,
  Keeps-any, Keeps-path, Keeps-fid, paths_of, keeps_rules, Keeps-then,
}
use kvmc.P9.Safety.Session.{
  All-append, Keeps-abs_path, Keeps-current_offset, Keeps-deref_any, Keeps-load_fid, Keeps-root,
  Keeps-seek_read, Keeps-seek_write, Keeps-writef, full-climbs, no_climb, with_pdu,
}

module _ {H : Type 0} (os : Host H) {root : Text} {I : H → Type 0} where
  Keeps-readf : (f : Format) → Keeps root I Anything (readf os f)
  unfolding readf
  Keeps-readf f = record {
    at = λ s h. decoded_at (P9Pdu.get (os.malloc s.host) os.junk f s.pdu) s h;
  }
    where
      decoded_at :
          (d : Decoded) (s : P9 H)
          → IsSafe root I s
          → IsSafe root I (decoded os d s).1 × OnOk Anything (decoded os d s).0
      decoded_at (Decoded.got v p) s h = (with_pdu s p h, tt)
      decoded_at (Decoded.no_memory p) s h = (with_pdu s p h, tt)
      decoded_at Decoded.fault s h = (h, tt)

  pub Keeps-read_num : (f : Format) → Keeps root I Anything (read_num os f)
  unfolding read_num
  Keeps-read_num f = Keeps-then _ _ (Keeps-readf f) (λ v. search keeps_rules)

  pub Keeps-read_str : Keeps root I Anything (read_str os)
  unfolding read_str
  Keeps-read_str = Keeps-then _ _ (Keeps-readf _) (λ v. search keeps_rules)

  pub Keeps-read_name : Keeps root I Anything (read_name os)
  unfolding read_name
  Keeps-read_name = Keeps-then _ _ Keeps-read_str Keeps-deref_any

  pub Keeps-set_reply_header :
      (size : ℕ) → Keeps root I Anything (virtio_p9_set_reply_header os size)
  unfolding virtio_p9_set_reply_header
  Keeps-set_reply_header size =
      Keeps-then _ _ (Keeps-seek_read 4)
        (λ _. search (keeps_rules, Keeps-read_num, Keeps-seek_write, Keeps-writef))

  pub Keeps-send_reply : Keeps root I Anything (send_reply os)
  unfolding send_reply
  Keeps-send_reply =
      Keeps-then _ _ Keeps-current_offset (λ _. search (keeps_rules, Keeps-set_reply_header))

  pub Keeps-error_reply : (e : ℕ) → Keeps root I Anything (virtio_p9_error_reply os e)
  unfolding virtio_p9_error_reply
  Keeps-error_reply e = Keeps-then _ _ (Keeps-seek_write 7) (λ _.
      search
        (
          keeps_rules, Keeps-seek_read, Keeps-read_num, Keeps-seek_write, Keeps-writef,
          Keeps-current_offset,
        )
        depth 30)

  pub Keeps-or_error :
      (m : Exec H ℕ) → Keeps root I Anything m → Keeps root I Anything (or_error os m)
  unfolding or_error
  Keeps-or_error m k = record { at = λ s h. handled_at (m s) (k.at s h).0 }
    where
      handled_at :
          (r : Ending ℕ × P9 H)
          → IsSafe root I r.1
          → IsSafe root I (handled os r).1 × OnOk Anything (handled os r).0
      handled_at (ok n, s) h = (h, tt)
      handled_at (err e, s) h = (Keeps-error_reply e).at s h
      handled_at (fault, s) h = (h, tt)
      handled_at (out_of_fuel, s) h = (h, tt)

module _ {H : Type 0} {os : Host H} {root : Text} {I : H → Type 0} (resp : Respects os root I) where
  pub Keeps-lstat : (p : Text) → Inside root p → Keeps root I Anything (call (os.lstat p))
  Keeps-lstat p i = Keeps-call (os.lstat p) (λ h. resp.lstat-I p h i)

  pub Keeps-change :
      (c : Change) → All (Inside root) (paths_of c) → Keeps root I Anything (call (os.change c))
  Keeps-change c i = Keeps-call (os.change c) (λ h. resp.change-I c h i)

  -- A name that can be looked up below the root does not climb.
  pub Keeps-stat_rel : (path : Text) → Keeps root I (λ _. climbs path ≡ false) (stat_rel os path)
  unfolding stat_rel
  Keeps-stat_rel path = Keeps-bind _ _ Keeps-root (λ r e.
      Keeps-bind _ _ (raised_full r e (get_full_path_helper r path) refl)
        (λ q (flat, i). Keeps-always flat (Keeps-lstat q i)))
    where
      raised_full :
          (r : Text)
          → r ≡ root
          → (f : FullPath) → get_full_path_helper r path ≡ f
          → Keeps root I (λ q. (climbs path ≡ false) × Inside root q) (raised f)
      raised_full r e (full p) w =
          let (whole, flat) = full-climbs r path p w in
          let slash : climbs (47 ∷ path) ≡ false =
            climbs-append r (47 ∷ path) (ap climbs (sym whole) ∙ flat) in
          let under : p ≡ root ++ (47 ∷ path) = whole ∙ ap (λ t. t ++ (47 ∷ path)) e in
          Keeps-pure p (climbs-slash path slash, (47 ∷ path, under, refl, slash))
      raised_full r e (refused n) w = Keeps-raise_errno n

  pub Keeps-is_dir : (p : ℕ) → Keeps root I Anything (is_dir os p)
  unfolding is_dir
  Keeps-is_dir p = Keeps-path _ _ (Keeps-abs_path p) (λ path i.
      Keeps-then _ _ (Keeps-ask (os.stat path) (λ h. resp.stat-I path h i)) (λ _. Keeps-any _))

  module _ (tree : FidBalance) where
    -- A fid that was just made has no name yet.
    added :
        (s : P9 H) (fid p : ℕ) (b : Bool)
        → IsSafe root I s
        → (r : Ending (Option ℕ) × P9 H)
        → r ≡ (
            if b then (ok none, s) else (
              ok (some p),
              record s {
                store = s.store ++ (new_fid fid ∷ []);
                fids = insert_new_fid tree (record { key = fid; at = p }) s.fids;
              },
            ))
        → IsSafe root I r.1 × OnOk Anything r.0
    added s fid p true h r e = rw e (h, tt)
    added s fid p false h r e = rw e (
      record {
        same_root = h.same_root;
        inside = All-append FidInside s.store (new_fid fid) h.inside (tt, no_climb);
        kept = h.kept;
      },
      tt,
    )

    Keeps-add_fid : (fid : ℕ) → Keeps root I Anything (add_fid os tree fid)
    unfolding add_fid
    Keeps-add_fid fid = record {
      at = λ s h. added s fid (length s.store) (leb path_max (length s.root_dir)) h _ refl;
    }

    Keeps-find_or_create : (fid : ℕ) → Keeps root I Anything (find_or_create_fid os tree fid)
    unfolding find_or_create_fid
    Keeps-find_or_create fid = Keeps-then _ _ (Keeps-get_state _) (λ found. when_found found)
      where
        when_found :
            (o : Option ℕ)
            → Keeps root I Anything (elim o [
              | some p ↦ pure (some p)
              | none ↦ do given ← ask os.calloc; if given then add_fid os tree fid else pure none
            ])
        when_found none =
            Keeps-then _ _ (Keeps-ask os.calloc resp.calloc-I)
              (λ given. search (keeps_rules, Keeps-add_fid))
        when_found (some p) = Keeps-any (some p)

    pub Keeps-get_fid : (fid : ℕ) → Keeps root I Anything (get_fid os tree fid)
    unfolding get_fid
    Keeps-get_fid fid = Keeps-then _ _ (Keeps-find_or_create fid) (Keeps-deref_any)

    Keeps-erase :
        (x : ℕ → Node) (p : ℕ)
        → Keeps {H = H} root I Anything (modify (λ s. record s { fids = tree.erase (x p) s.fids }))
    Keeps-erase x p = Keeps-modify _ (λ s. refl) (λ s. refl) (λ s. refl)

    pub Keeps-close_fid : (fid : ℕ) → Keeps root I Anything (close_fid os tree fid)
    unfolding close_fid
    Keeps-close_fid fid = Keeps-then _ _ (Keeps-get_fid fid) (λ p.
        Keeps-fid _ _ (Keeps-load_fid p) (λ c i.
          Keeps-then _ _ (search (keeps_rules, Keeps-run_host (os.close c.fd) (resp.close-I c.fd)))
            (λ _.
              Keeps-then _ _
                (search (keeps_rules, Keeps-run_host (os.closedir c.dir) (resp.closedir-I c.dir)))
                (λ _. Keeps-modify _ (λ s. refl) (λ s. refl) (λ s. refl)))))
