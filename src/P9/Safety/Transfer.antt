-- ===== src/P9/Safety/Transfer.antt =====
-- The handlers that move bytes, read directories and walk, as actions that keep the server safe.
use kvmc.Prelude.{
  ℕ, zero, suc, ◌+◌, ◌%◌, ◌^◌, ◌≡◌, refl, sym, ap, ◌∙◌, List, ◌∷◌, ◌++◌, false, Option, none, some,
  ltb, ◌==◌,
}
use kvmc.P9Pdu.{is_dword}
use kvmc.P9.{Text, Dirent, Host}
use kvmc.P9.Paths.{FullPath, full, refused, get_full_path_helper}
use kvmc.P9.Paths.Components.{climbs, climbs-append}
use kvmc.P9.Fids.{FidBalance}
use kvmc.P9.Transfer.{
  read_file, filling, reply_count, writing, stat_full, put_dirent, put_dirents, dentry_size,
  list_dir, virtio_p9_read, virtio_p9_write, virtio_p9_readdir,
}
use kvmc.P9.Walk.{
  join_or_raise, skip_word, walk_step, walk_steps, walk_names, walk_none, virtio_p9_walk,
}
use kvmc.P9.Safety.{
  Rooted, Respects, Anything, Keeps, Keeps-crash, Keeps-stop, Keeps-if, Keeps-any, Keeps-get_state,
  Keeps-call, Keeps-ask, Keeps-run_host, Keeps-modify, Keeps-then, Keeps-bind, Keeps-fid,
  keeps_rules,
}
use kvmc.P9.Safety.Session.{
  Keeps-load_fid, Keeps-update_fid, Keeps-join_path, Keeps-root, Keeps-seek_write, Keeps-writef,
  Keeps-current_offset, Rooted-slash, full-climbs,
}
use kvmc.P9.Safety.Messages.{
  Keeps-read_num, Keeps-read_name, Keeps-stat_rel, Keeps-is_dir, Keeps-get_fid,
}
use kvmc.P9.Safety.Calls.{request_rules}

module _ {H : Type 0} {root : Text} {I : H → Type 0} where
  Keeps-skip_word : Keeps {H = H} root I Anything skip_word
  unfolding skip_word
  Keeps-skip_word = Keeps-modify _ (λ s. refl) (λ s. refl) (λ s. refl)

  Keeps-join_or_raise :
      (p : ℕ) (name : Text)
      → Rooted name
      → climbs name ≡ false
      → Keeps {H = H} root I Anything (join_or_raise p name)
  unfolding join_or_raise
  Keeps-join_or_raise p name r c =
      Keeps-then _ _ (Keeps-join_path p name r c) (λ _. search keeps_rules)

module _ {H : Type 0} {os : Host H} {root : Text} {I : H → Type 0} (resp : Respects os root I) where
  -- The path of a step was looked up below the root before it is stored.
  Keeps-walk_step : (new_fid fid : ℕ) → Keeps root I Anything (walk_step os new_fid fid)
  unfolding walk_step
  Keeps-walk_step new_fid fid = Keeps-then _ _ (Keeps-read_name os) (λ name.
      Keeps-fid _ _ (Keeps-load_fid new_fid) (λ c i. Keeps-then _ _ (search keeps_rules) (λ _.
        Keeps-bind _ _ (Keeps-stat_rel resp (c.path ++ (47 ∷ name))) (λ st level.
          Keeps-then _ _
            (Keeps-join_or_raise new_fid (c.path ++ (47 ∷ name)) (Rooted-slash c.path name i.0)
              level)
            (λ _. Keeps-fid _ _ (Keeps-load_fid fid) (λ old j.
              Keeps-then _ _ (Keeps-update_fid new_fid _ (λ c i. i)) (λ _. Keeps-writef _)))))))

  Keeps-walk_steps :
      (fuel new_fid fid nwname i nwqid : ℕ)
      → Keeps root I Anything (walk_steps os fuel new_fid fid nwname i nwqid)
  unfolding walk_steps
  Keeps-walk_steps zero new_fid fid nwname i nwqid =
      Keeps-if _ _ _ (λ _. Keeps-stop) (λ _. Keeps-any nwqid)
  Keeps-walk_steps (suc fuel) new_fid fid nwname i nwqid =
      Keeps-if _ _ _
        (λ _.
          Keeps-then _ _ (Keeps-walk_step new_fid fid)
            (λ _. Keeps-walk_steps fuel new_fid fid nwname ((i + 1) % 256) ((nwqid + 1) % 65536)))
        (λ _. Keeps-any nwqid)

  -- `preadv` and `pwritev`.
  Keeps-filling :
      (fd offset count : ℕ) (o : Option (List (List ℕ)))
      → Keeps root I Anything (filling os fd offset count o)
  unfolding filling
  Keeps-filling fd offset count none = Keeps-crash
  Keeps-filling fd offset count (some used) =
      Keeps-then _ _ (Keeps-ask (os.preadv fd _ offset) (resp.preadv-I fd _ offset)) (λ a.
        Keeps-then _ _ (Keeps-modify _ (λ s. refl) (λ s. refl) (λ s. refl)) (λ _. Keeps-any _))

  Keeps-read_file : (fd offset count : ℕ) → Keeps root I Anything (read_file os fd offset count)
  unfolding read_file
  Keeps-read_file fd offset count =
      Keeps-then _ _ (Keeps-get_state _) (Keeps-filling fd offset count)

  Keeps-reply_count : (n : ℕ) → Keeps root I Anything (reply_count os n)
  unfolding reply_count
  Keeps-reply_count n = Keeps-then _ _ (Keeps-seek_write 7) (λ _. search request_rules depth 20)

  Keeps-writing :
      (fd offset : ℕ) (o : Option (List (List ℕ))) → Keeps root I Anything (writing os fd offset o)
  unfolding writing
  Keeps-writing fd offset none = Keeps-crash
  Keeps-writing fd offset (some used) =
      Keeps-then _ _ (Keeps-modify _ (λ s. refl) (λ s. refl) (λ s. refl))
        (λ _. Keeps-call (os.pwritev fd _ offset) (resp.pwritev-I fd _ offset))

  stat_full-I :
      (r name : Text)
      → r ≡ root
      → (f : FullPath) → get_full_path_helper r name ≡ f
      → (h : H) → I h
      → I (stat_full os f h).1
  unfolding stat_full
  stat_full-I r name e (full path) w h i =
      let (whole, flat) = full-climbs r name path w in
      resp.lstat-I path h
        (
          47 ∷ name,
          whole ∙ ap (λ t. t ++ (47 ∷ name)) e,
          refl,
          climbs-append r (47 ∷ name) (ap climbs (sym whole) ∙ flat),
        )
        i
  stat_full-I r name e (refused n) w h i = i

  Keeps-put_dirent : (d : Dirent) → Keeps root I Anything (put_dirent os d)
  unfolding put_dirent
  Keeps-put_dirent d = Keeps-bind _ _ Keeps-root (λ r e.
      Keeps-then _ _ (Keeps-ask (stat_full os _) (stat_full-I r d.d_name e _ refl))
        (λ st. search request_rules depth 20))

  Keeps-put_dirents :
      (fuel dir count old_offset rcount : ℕ) (o : Option Dirent)
      → Keeps root I Anything (put_dirents os fuel dir count old_offset rcount o)
  unfolding put_dirents
  Keeps-put_dirents zero dir count old_offset rcount none = Keeps-any rcount
  Keeps-put_dirents (suc fuel) dir count old_offset rcount none = Keeps-any rcount
  Keeps-put_dirents zero dir count old_offset rcount (some d) = Keeps-stop
  Keeps-put_dirents (suc fuel) dir count old_offset rcount (some d) =
      Keeps-if (ltb count ((rcount + dentry_size d) % 2 ^ 32)) _ _
        (λ _.
          Keeps-then _ _
            (Keeps-run_host (os.seekdir dir old_offset) (resp.seekdir-I dir old_offset))
            (λ _. Keeps-any rcount))
        (λ _. Keeps-then _ _ (Keeps-put_dirent d) (λ written.
          Keeps-then _ _ (Keeps-ask (os.readdir dir) (resp.readdir-I dir))
            (λ next. Keeps-put_dirents fuel dir count d.d_off ((rcount + written) % 2 ^ 32) next)))

  Keeps-list_dir :
      (fuel dir offset count : ℕ) → Keeps root I Anything (list_dir os fuel dir offset count)
  unfolding list_dir
  Keeps-list_dir fuel dir offset count =
      Keeps-if (dir == 0) _ _ (λ _. Keeps-crash)
        (λ _.
          Keeps-then _ _ (Keeps-run_host (os.seekdir dir offset) (resp.seekdir-I dir offset)) (λ _.
            Keeps-then _ _ (Keeps-ask (os.readdir dir) (resp.readdir-I dir)) (λ dent.
              Keeps-then _ _ (Keeps-modify _ (λ s. refl) (λ s. refl) (λ s. refl)) (λ _.
                Keeps-then _ _ (Keeps-put_dirents fuel dir count offset 0 dent)
                  Keeps-reply_count))))

  module _ (tree : FidBalance) where
    pub Keeps-read : Keeps root I Anything (virtio_p9_read os tree)
    unfolding virtio_p9_read
    Keeps-read = Keeps-then _ _ (Keeps-read_num os is_dword) (λ fid.
        search (request_rules, Keeps-get_fid resp tree, Keeps-read_file, Keeps-reply_count) depth
          40)

    pub Keeps-write : Keeps root I Anything (virtio_p9_write os tree)
    unfolding virtio_p9_write
    Keeps-write =
        Keeps-then _ _ (Keeps-read_num os is_dword)
          (λ fid. search (request_rules, Keeps-get_fid resp tree, Keeps-writing) depth 40)

    pub Keeps-readdir : (fuel : ℕ) → Keeps root I Anything (virtio_p9_readdir os tree fuel)
    unfolding virtio_p9_readdir
    Keeps-readdir fuel = Keeps-then _ _ (Keeps-read_num os is_dword) (λ fid.
        search (request_rules, Keeps-get_fid resp tree, Keeps-is_dir resp, Keeps-list_dir) depth 40)

    Keeps-walk_names :
        (fuel fid_val new_fid nwname : ℕ)
        → Keeps root I Anything (walk_names os tree fuel fid_val new_fid nwname)
    unfolding walk_names
    Keeps-walk_names fuel fid_val new_fid nwname =
        Keeps-then _ _ (Keeps-get_fid resp tree fid_val) (λ fid.
          Keeps-fid _ _ (Keeps-load_fid fid) (λ c i.
            Keeps-then _ _ (Keeps-join_or_raise new_fid c.path i.0 i.1) (λ _.
              Keeps-then _ _ Keeps-skip_word (λ _. Keeps-walk_steps fuel new_fid fid nwname 0 0))))

    Keeps-walk_none :
        (fid_val new_fid : ℕ) → Keeps root I Anything (walk_none os tree fid_val new_fid)
    unfolding walk_none
    Keeps-walk_none fid_val new_fid = Keeps-then _ _ Keeps-skip_word (λ _.
        Keeps-then _ _ (Keeps-get_fid resp tree fid_val) (λ old_fid.
          Keeps-fid _ _ (Keeps-load_fid old_fid) (λ c i.
            Keeps-then _ _ (Keeps-join_or_raise new_fid c.path i.0 i.1)
              (λ _. Keeps-then _ _ (Keeps-update_fid new_fid _ (λ c i. i)) (λ _. Keeps-any 0)))))

    pub Keeps-walk : (fuel : ℕ) → Keeps root I Anything (virtio_p9_walk os tree fuel)
    unfolding virtio_p9_walk
    Keeps-walk fuel = Keeps-then _ _ (Keeps-read_num os is_dword) (λ fid.
        search
          (
            request_rules,
            Keeps-get_fid resp tree,
            Keeps-walk_names,
            Keeps-walk_none,
            Keeps-current_offset,
            Keeps-seek_write,
          )
          depth 40)
